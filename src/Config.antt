-- ===== src/Config.antt =====
-- internal/config/config.go: the provider's configuration, its defaults and its validation.
-- Endpoints and client factories (clients.go) are in Config/Endpoint and Config/Clients.
pub mod Endpoint
pub mod Clients
pub mod Laws
use pulumi_eos.Base.{
  Bool, true, false, not, ◌&&◌, [], ◌∷◌, Option, none, some, if◌then◌else◌, ℤ, pos, ltb_ℤ,
}
use pulumi_eos.Text.{Str, codes, str_eq}
use pulumi_eos.Errors.{
  GoError, sentinel, wrapped, text, Result, ok, err, ◌>>=◌, ◌>>◌, refuse_if, wrap_err,
}
use pulumi_eos.Std.{Std, Url}
use pulumi_eos.Commands.{set_text}

-- Durations are in nanoseconds.
abbrev pub default_transport : Str
default_transport = codes "eapi"

abbrev pub default_request_timeout : ℤ
default_request_timeout = pos 30000000000

abbrev pub default_session_prefix : Str
default_session_prefix = codes "pulumi-"

abbrev pub default_retry_attempts : ℤ
default_retry_attempts = pos 5

abbrev pub default_retry_base_delay : ℤ
default_retry_base_delay = pos 1000000000

abbrev pub default_retry_max_delay : ℤ
default_retry_max_delay = pos 30000000000

abbrev pub err_no_endpoint : GoError
err_no_endpoint = sentinel (codes "at least one of eosUrl or cvpUrl must be set")

abbrev pub err_unsupported_transp : GoError
err_unsupported_transp = sentinel (codes "eosTransport must be 'eapi' or 'gnmi'")

abbrev pub transport_eapi : Str
transport_eapi = codes "eapi"

abbrev pub transport_gnmi : Str
transport_gnmi = codes "gnmi"

pub record Config : Type 0 where
  pub eos_url : Str
  pub eos_username : Str
  pub eos_password : Option Str
  pub eos_tls_ca_cert : Option Str
  pub eos_tls_client_cert : Option Str
  pub eos_tls_client_key : Option Str
  pub eos_insecure : Option Bool
  pub eos_transport : Option Str
  pub eos_request_timeout : Option Str
  pub eos_session_prefix : Option Str
  pub cvp_url : Str
  pub cvp_token : Option Str
  pub cvp_ca_cert : Option Str
  pub retry_max_attempts : Option ℤ
  pub retry_base_delay : Option Str
  pub retry_max_delay : Option Str

abbrev or_text : Option Str → Str → Str
or_text none d = d
or_text (some s) d = s

unfoldable pub session_prefix : Config → Str
unfolding str_eq
session_prefix c = or_text (set_text c.eos_session_prefix) default_session_prefix

abbrev attempts : Option ℤ → ℤ
attempts none = default_retry_attempts
attempts (some n) = if ltb_ℤ n (pos 1) then default_retry_attempts else n

unfoldable pub retry_attempts : Config → ℤ
retry_attempts c = attempts c.retry_max_attempts

unfoldable pub has_eos : Config → Bool
unfolding str_eq
has_eos c = not (str_eq c.eos_url [])

unfoldable pub has_cvp : Config → Bool
unfolding str_eq
has_cvp c = not (str_eq c.cvp_url [])

module _ (std : Std) where
  open std use {parse_url, parse_duration, to_lower}

  abbrev lowered : Option Str → Str
  lowered none = default_transport
  lowered (some t) = to_lower t

  unfoldable pub transport : Config → Str
  unfolding str_eq
  transport c = lowered (set_text c.eos_transport)

  abbrev duration_or : Option Str → ℤ → Result ℤ
  duration_or none d = ok d
  duration_or (some t) d = parse_duration t

  unfoldable pub request_timeout : Config → Result ℤ
  unfolding str_eq
  request_timeout c = duration_or (set_text c.eos_request_timeout) default_request_timeout

  unfoldable pub retry_base : Config → Result ℤ
  unfolding str_eq
  retry_base c = duration_or (set_text c.retry_base_delay) default_retry_base_delay

  unfoldable pub retry_max : Config → Result ℤ
  unfolding str_eq
  retry_max c = duration_or (set_text c.retry_max_delay) default_retry_max_delay

  -- `if url != "" { if _, err := url.Parse(url); err != nil { return … } }`
  abbrev pub valid_url : Str → Str → Result (Unit {0})
  valid_url u f = if str_eq u [] then ok tt else wrap_err f [] (parse_url u) >>= λ _. ok tt

  unfoldable pub configure : Config → Result (Unit {0})
  unfolding str_eq transport request_timeout retry_base retry_max
  configure c = do
    valid_url c.eos_url (codes "eosUrl is not a valid URL: %w")
    valid_url c.cvp_url (codes "cvpUrl is not a valid URL: %w")
    refuse_if (str_eq c.eos_url [] && str_eq c.cvp_url []) err_no_endpoint
    let t = transport c
    refuse_if (not (str_eq t transport_eapi) && not (str_eq t transport_gnmi))
        (wrapped (codes "%w, got %q") (text t ∷ []) err_unsupported_transp)
    _ ← wrap_err (codes "eosRequestTimeout: %w") [] (request_timeout c)
    _ ← wrap_err (codes "retryBaseDelay: %w") [] (retry_base c)
    _ ← wrap_err (codes "retryMaxDelay: %w") [] (retry_max c)
    ok tt
