-- ===== src/Device.antt =====
-- internal/resources/device/device.go: facts about a switch. Configlet and RawCli are below.
pub mod Configlet
pub mod RawCli
use pulumi_eos.Base.{Bool, true, false, List, [], ◌∷◌, Option, none, some, ℤ}
use pulumi_eos.Text.{Str, codes}
use pulumi_eos.Errors.{GoError, sentinel, wrapped, Result, ok, err, wrap_err}
use pulumi_eos.Json
use pulumi_eos.Json.{as_string}
use pulumi_eos.Exec.{Exec, pure, lift, ◌>>=◌}
use pulumi_eos.Goeapi.{Goeapi}
use pulumi_eos.Std.{Std}
use pulumi_eos.Eapi
use pulumi_eos.Eapi.{Client}
use pulumi_eos.Config.{Config}
use pulumi_eos.Config.Clients.{eapi_client}
use pulumi_eos.Resource.{CreateResponse, ReadResponse}

abbrev pub err_facts_missing : GoError
err_facts_missing = sentinel (codes "device: show version returned no rows")

pub record DeviceArgs : Type 0 where
  pub host : Str
  pub port : Option ℤ
  pub username : Option Str
  pub password : Option Str

pub record DeviceState : Type 0 where
  pub args : DeviceArgs
  pub model : Str
  pub serial_number : Str
  pub hardware_rev : Str
  pub eos_version : Str
  pub system_mac : Str

-- `if v, ok := row[key].(string); ok { field = v }`
abbrev fact : Json.Fields → Str → Str → Str
fact row key old = elim (as_string (Json.get row key)) [ some v ↦ v | none ↦ old ]

unfoldable pub fill_facts : Json.Fields → DeviceState → DeviceState
unfolding Json.get
fill_facts row s = record s {
  model = fact row (codes "modelName") s.model;
  serial_number = fact row (codes "serialNumber") s.serial_number;
  hardware_rev = fact row (codes "hardwareRevision") s.hardware_rev;
  eos_version = fact row (codes "version") s.eos_version;
  system_mac = fact row (codes "systemMacAddress") s.system_mac;
}

abbrev facts_of : List Json.Fields → DeviceState → Result DeviceState
facts_of [] s = err err_facts_missing
facts_of (row ∷ _) s = ok (fill_facts row s)

abbrev pub no_facts : DeviceArgs → DeviceState
no_facts args = record {
  args = args;
  model = [];
  serial_number = [];
  hardware_rev = [];
  eos_version = [];
  system_mac = [];
}

module _ (g : Goeapi) (std : Std) (cfg : Config) where
  open g use {World}

  -- The host is always an override; the port is not used.
  unfoldable pub new_client : Str → Option Str → Option Str → Option ℤ → Exec World (Client g)
  unfolding eapi_client
  new_client host user pass port = eapi_client std g (some cfg) (some host) user pass

  abbrev wrap_exec {ℓ} : {A : Type ℓ} → Str → Result A × World → Result A × World
  wrap_exec f (r, w) = (wrap_err f [] r, w)

  unfoldable pub read_facts : DeviceState → Exec World DeviceState
  unfolding new_client Eapi.run_cmds fill_facts
  read_facts s = do
    c ← new_client s.args.host s.args.username s.args.password s.args.port
    resp ← λ w.
        wrap_exec (codes "show version: %w")
          (Eapi.run_cmds g (some c) (codes "show version" ∷ []) (codes "json") w)
    lift (facts_of resp s)

  abbrev created :
      DeviceArgs → Result DeviceState × World → Result (CreateResponse DeviceState) × World
  created args (ok s, w) = (ok (record { id = args.host; output = s }), w)
  created args (err e, w) = (err (wrapped (codes "read facts: %w") [] e), w)

  unfoldable pub create : DeviceArgs → Bool → Exec World (CreateResponse DeviceState)
  unfolding read_facts
  create args true w = (ok (record { id = args.host; output = no_facts args }), w)
  create args false w = created args (read_facts (no_facts args) w)

  unfoldable pub read :
      Str → DeviceArgs → DeviceState → Exec World (ReadResponse DeviceArgs DeviceState)
  unfolding read_facts
  read id inputs state = do
    s ← λ w. wrap_exec (codes "read facts: %w") (read_facts (record state { args = inputs }) w)
    pure (record { id = id; inputs = inputs; state = s })

  -- The resource never owned anything on the device.
  unfoldable pub delete : DeviceState → Exec World (Unit {0})
  delete s = pure tt
