-- ===== src/Config/Clients.antt =====
-- internal/config/clients.go: `EAPIClient`, the client of one resource operation.
use pulumi_eos.Base.{[], Option, none, some, if◌then◌else◌, ℤ}
use pulumi_eos.Text.{Str, codes, str_eq}
use pulumi_eos.Errors.{wrapped, Result, ok, err}
use pulumi_eos.Std.{Std}
use pulumi_eos.Goeapi.{Goeapi}
use pulumi_eos.Eapi
use pulumi_eos.Config.{Config, request_timeout}
use pulumi_eos.Commands.{set_text}
use pulumi_eos.Config.Endpoint.{Endpoint, split_eos_url, err_eos_not_configured, https}

-- `if override != nil && *override != "" { v = *override }`
abbrev pub overridden : Str → Option Str → Str
overridden v o = elim (set_text o) [ none ↦ v | some s ↦ s ]

abbrev pub or_empty : Option Str → Str
or_empty none = []
or_empty (some s) = s

module _ (std : Std) where
  abbrev pub with_timeout :
      Config → Option Str → Option Str → Endpoint → Result ℤ → Result Eapi.Config
  with_timeout c user pass ep (err e) = err (wrapped (codes "requestTimeout: %w") [] e)
  with_timeout c user pass ep (ok timeout) = ok (record {
    host = ep.host;
    port = ep.port;
    username = overridden c.eos_username user;
    password = overridden (or_empty c.eos_password) pass;
    timeout = timeout;
    use_https = str_eq ep.scheme https;
  })

  unfoldable pub connect_to :
      Config → Option Str → Option Str → Result Endpoint → Result Eapi.Config
  unfolding str_eq request_timeout
  connect_to c user pass (err e) = err e
  connect_to c user pass (ok ep) =
      if str_eq ep.host []
      then err err_eos_not_configured
      else with_timeout c user pass ep (request_timeout std c)

  -- The connection that the factory asks for, or its error.
  unfoldable pub connection :
      Option Config → Option Str → Option Str → Option Str → Result Eapi.Config
  unfolding split_eos_url connect_to
  connection none host user pass = err err_eos_not_configured
  connection (some c) host user pass = connect_to c user pass (split_eos_url std c.eos_url host)

  module _ (g : Goeapi) where
    open g use {World}

    abbrev pub connected : Result Eapi.Config → World → Result (Eapi.Client g) × World
    connected (err e) w = (err e, w)
    connected (ok cfg) w = Eapi.new g cfg w

    unfoldable pub eapi_client :
        Option Config
        → Option Str
        → Option Str
        → Option Str
        → World
        → Result (Eapi.Client g) × World
    unfolding connection Eapi.new
    eapi_client c host user pass w = connected (connection c host user pass) w
