-- ===== src/Tests.antt =====
-- Inputs for the tests: a provider's configuration, a parser for the one URL that they use, and
-- switches of Eapi/Lab.
pub mod Sessions
pub mod Vlans
pub mod Blocks
pub mod Interfaces
pub mod PortChannels
pub mod PrefixLists
pub mod Provider
pub mod Routing
pub mod Segments
pub mod Timers
use pulumi_eos.Base.{Bool, true, false, List, [], ◌∷◌, Option, none, some, ℤ, pos}
use pulumi_eos.Text.{Str, codes}
use pulumi_eos.Errors.{Result, ok, err}
use pulumi_eos.Std.{Std}
use pulumi_eos.Eapi.Lab.{LabWorld, lab_error}
use pulumi_eos.Config.{Config}
use pulumi_eos.Resource.{Access}

abbrev pub std : Std
std = record {
  parse_url = λ u. ok (record { scheme = codes "https"; hostname = codes "leaf-01"; port = [] });
  parse_duration = λ t. err lab_error;
  to_lower = λ s. s;
  sha256_hex = λ s. s;
}

abbrev pub config : Config
config = record {
  eos_url = codes "https://leaf-01";
  eos_username = codes "admin";
  eos_password = none;
  eos_tls_ca_cert = none;
  eos_tls_client_cert = none;
  eos_tls_client_key = none;
  eos_insecure = none;
  eos_transport = none;
  eos_request_timeout = none;
  eos_session_prefix = none;
  cvp_url = [];
  cvp_token = none;
  cvp_ca_cert = none;
  retry_max_attempts = none;
  retry_base_delay = none;
  retry_max_delay = none;
}

abbrev pub no_access : Access
no_access = record { host = none; username = none; password = none }

-- A switch with one line of configuration, whose calls fail as listed.
abbrev pub switch : List Bool → LabWorld
switch faults = record {
  running = codes "hostname leaf-01" ∷ [];
  sessions = λ n. [];
  faults = faults;
}

-- Whether an operation succeeded, and the running configuration behind it.
abbrev pub seen {ℓ} : {A : Type ℓ} → Option (Result A × LabWorld) → Option (Bool × List Str)
seen none = none
seen (some (ok _, w)) = some (true, w.running)
seen (some (err _, w)) = some (false, w.running)
