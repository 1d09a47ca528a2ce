-- ===== src/Config/Endpoint.antt =====
-- internal/config/clients.go: the provider's URL merged with a resource's override of the host.
use pulumi_eos.Base.{not, ◌&&◌, [], ◌∷◌, Option, none, some, if◌then◌else◌, ℤ, pos}
use pulumi_eos.Text.{Str, codes, str_eq, contains}
use pulumi_eos.Text.Decimal.{atoi}
use pulumi_eos.Errors.{GoError, sentinel, wrapped, text, Result, ok, err}
use pulumi_eos.Std.{Std, Url}
use pulumi_eos.Commands.{set_text}

abbrev pub err_eos_not_configured : GoError
err_eos_not_configured = sentinel (codes "provider eosUrl not configured")

abbrev pub err_unsupported_scheme : GoError
err_unsupported_scheme = sentinel (codes "eosUrl must be http:// or https://")

pub record Endpoint : Type 0 where
  pub host : Str
  pub port : ℤ
  pub scheme : Str

abbrev port_or_zero : Option ℤ → ℤ
port_or_zero none = pos 0
port_or_zero (some v) = v

unfoldable pub host_port : Url → Str × ℤ
unfolding str_eq atoi
host_port u = (u.hostname, if str_eq u.port [] then pos 0 else port_or_zero (atoi u.port))

abbrev pub https : Str
https = codes "https"

-- What the override leaves: a full URL decides alone, a bare host waits for the provider's URL.
pub data Override : Type 0 where
  full : Result Endpoint → Override
  bare : Str → Override

module _ (std : Std) where
  open std use {parse_url}

  unfoldable pub read_override : Option Str → Override
  unfolding str_eq contains host_port
  read_override o = elim (set_text o) [
    | none ↦ bare []
    | some ov ↦
        if contains ov (codes "://")
        then full (elim (parse_url ov) [
          | ok u ↦ ok (record { host = (host_port u).0; port = (host_port u).1; scheme = u.scheme })
          | err e ↦ err (wrapped (codes "host override %q: %w") (text ov ∷ []) e)
        ])
        else bare ov
  ]

  -- The provider's URL behind a bare host, empty where there is none. The override has set no port.
  unfoldable pub merge_url : Str → Str → Result Endpoint
  unfolding str_eq host_port
  merge_url prov_url host = elim (parse_url prov_url) [
    | err e ↦ err (wrapped (codes "eosUrl %q: %w") (text prov_url ∷ []) e)
    | ok u ↦
        if not (str_eq u.scheme (codes "http"))
          && not (str_eq u.scheme https)
          && not (str_eq u.scheme [])
        then err err_unsupported_scheme
        else ok (record {
          host = if str_eq host [] then (host_port u).0 else host;
          port = (host_port u).1;
          scheme = if str_eq u.scheme [] then https else u.scheme;
        })
  ]

  unfoldable pub split_eos_url : Str → Option Str → Result Endpoint
  unfolding str_eq read_override merge_url
  split_eos_url prov_url override = elim (read_override override) [
    | full r ↦ r
    | bare host ↦
        if str_eq prov_url []
        then (if str_eq host []
            then err err_eos_not_configured
            else ok (record { host = host; port = pos 0; scheme = https }))
        else merge_url prov_url host
  ]
