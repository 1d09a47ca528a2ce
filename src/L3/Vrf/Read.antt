-- ===== src/L3/Vrf/Read.antt =====
-- internal/resources/l3/vrf.go: `readVrf`, `fillState` and Read.
use pulumi_eos.Base.{
  Bool, true, false, ◌||◌, List, [], ◌∷◌, ◌++◌, Option, none, some, if◌then◌else◌,
}
use pulumi_eos.Text.{Str, codes, str_eq, cut_prefix, contains, split, trim_space}
use pulumi_eos.Errors.{Result, ok, err}
use pulumi_eos.Json
use pulumi_eos.Exec.{Exec, pure, ◌>>=◌}
use pulumi_eos.Goeapi.{Goeapi}
use pulumi_eos.Std.{Std}
use pulumi_eos.Eapi
use pulumi_eos.Config.{Config}
use pulumi_eos.Resource.{ReadResponse, new_client}
use pulumi_eos.Resource.Kind.{on_output}
use pulumi_eos.L2.Switchport.{text_or}
use pulumi_eos.L3.Listing.{over_lines}
use pulumi_eos.L3.Vrf.{VrfArgs, vrf_id}

pub record VrfRow : Type 0 where
  pub description : Str
  pub ip_routing : Bool
  pub ipv6_routing : Bool

abbrev pub described : Option Str → VrfRow → VrfRow
described none row = row
described (some v) row = record row { description = v }

unfoldable pub parse_vrf_line : Str → VrfRow → VrfRow
unfolding cut_prefix
parse_vrf_line line row = described (cut_prefix line (codes "description ")) row

abbrev pub no_row : VrfRow
no_row = record { description = []; ip_routing = false; ipv6_routing = false }

unfoldable pub parse_vrf_section : Str → Str → Option VrfRow
unfolding contains split over_lines parse_vrf_line
parse_vrf_section out name =
    if contains out (codes "vrf instance " ++ name)
    then some (over_lines parse_vrf_line (split out b'\n') no_row)
    else none

abbrev pub needle : Str → Bool → Str
needle name false = codes "ip routing vrf " ++ name
needle name true = codes "ipv6 unicast-routing vrf " ++ name

-- The loop over the lines, which returns at the first that is the whole command.
unfoldable pub has_line : Str → List Str → Bool
unfolding str_eq trim_space
has_line wanted [] = false
has_line wanted (raw ∷ rest) = str_eq (trim_space raw) wanted || has_line wanted rest

abbrev pub enabled : Option Bool → Bool
enabled none = false
enabled (some b) = b

-- `if v4, err := …; err == nil { row.IPRouting = v4 }`: an error leaves `false`.
abbrev pub or_false {ℓ} : {W : Type ℓ} → Result Bool × W → Result Bool × W
or_false (ok b, w) = (ok b, w)
or_false (err e, w) = (ok false, w)

unfoldable pub fill_state : VrfRow → VrfArgs → VrfArgs
unfolding str_eq
fill_state r a = record a {
  description = text_or a.description r.description;
  ip_routing = some r.ip_routing;
  ipv6_routing = some r.ipv6_routing;
}

module _ (g : Goeapi) where
  open g use {World}

  unfoldable pub vrf_routing_enabled : Option (Eapi.Client g) → Str → Bool → Exec World Bool
  unfolding Eapi.run_cmds Json.get split has_line
  vrf_routing_enabled c name ipv6 = do
    resp ←
        Eapi.run_cmds g c ((codes "show running-config | include " ++ needle name ipv6) ∷ [])
          (codes "text")
    pure (
        enabled (on_output none (λ out. some (has_line (needle name ipv6) (split out b'\n'))) resp))

  abbrev pub with_routing :
      Option (Eapi.Client g) → Str → Option VrfRow → Exec World (Option VrfRow)
  with_routing c name none = pure none
  with_routing c name (some row) = do
    v4 ← λ w. or_false (vrf_routing_enabled c name false w)
    v6 ← λ w. or_false (vrf_routing_enabled c name true w)
    pure (some (record row { ip_routing = v4; ipv6_routing = v6 }))

  unfoldable pub read_vrf : Option (Eapi.Client g) → Str → Exec World (Option VrfRow)
  unfolding Eapi.run_cmds Json.get parse_vrf_section vrf_routing_enabled
  read_vrf c name = do
    resp ←
        Eapi.run_cmds g c ((codes "show running-config | section vrf instance " ++ name) ∷ [])
          (codes "text")
    with_routing c name (on_output none (λ out. parse_vrf_section out name) resp)

  module _ (std : Std) (cfg : Config) where
    abbrev refreshed : VrfArgs → Option VrfRow → Option (ReadResponse VrfArgs VrfArgs)
    refreshed a none = none
    refreshed a (some row) =
        some (record { id = vrf_id a.name; inputs = a; state = fill_state row a })

    unfoldable pub read : VrfArgs → Exec World (Option (ReadResponse VrfArgs VrfArgs))
    unfolding new_client read_vrf vrf_id fill_state
    read a = do
      c ← new_client g std cfg a.access
      row ← read_vrf (some c) a.name
      pure (refreshed a row)
