-- ===== src/L2/Vlan.antt =====
-- internal/resources/l2/vlan.go.
pub mod Laws
use pulumi_eos.Base.{
  Bool, true, false, not, ◌||◌, List, [], ◌∷◌, ◌++◌, Option, none, some, if◌then◌else◌, ℤ, pos,
  ltb_ℤ,
}
use pulumi_eos.Text.{Str, codes, str_eq}
use pulumi_eos.Text.Decimal.{itoa}
use pulumi_eos.Errors.{GoError, sentinel, wrapped, number, Result, ok, err, refuse_if}
use pulumi_eos.Json
use pulumi_eos.Json.{as_string, as_object}
use pulumi_eos.Exec.{Exec, pure, ◌>>=◌}
use pulumi_eos.Goeapi.{Goeapi}
use pulumi_eos.Std.{Std}
use pulumi_eos.Eapi
use pulumi_eos.Config.{Config}
use pulumi_eos.Commands.{set_text}
use pulumi_eos.Commands.{text_cmd}
use pulumi_eos.Resource.{
  Access, CreateResponse, ReadResponse, Op, new_client, apply_with, submit_with, delete_with,
}

abbrev pub err_vlan_id_out_of_range : GoError
err_vlan_id_out_of_range = sentinel (codes "vlan id must be in 1..4094")

pub record VlanArgs : Type 0 where
  pub id : ℤ
  pub name : Option Str
  pub access : Access

-- `if id < 1 || id > 4094`
abbrev pub out_of_range : ℤ → Bool
out_of_range id = ltb_ℤ id (pos 1) || ltb_ℤ (pos 4094) id

unfoldable pub validate_vlan_id : ℤ → Result (Unit {0})
validate_vlan_id id =
    refuse_if (out_of_range id)
      (wrapped (codes "%w (got %d)") (number id ∷ []) err_vlan_id_out_of_range)

unfoldable pub vlan_id : ℤ → Str
vlan_id id = codes "vlan/" ++ itoa id

unfoldable pub build_vlan_cmds : VlanArgs → Bool → List Str
unfolding str_eq
build_vlan_cmds args remove =
    if remove
    then (codes "no vlan " ++ itoa args.id) ∷ []
    else (codes "vlan " ++ itoa args.id) ∷ text_cmd (codes "name ") args.name

-- The row of a VLAN in the reply to `show vlan`: its name, empty where it has none.
abbrev name_of : Option Json.Fields → Option Str
name_of none = none
name_of (some entry) = elim (as_string (Json.get entry (codes "name"))) [
  | some v ↦ some v
  | none ↦ some []
]

abbrev look_up : Option Json.Fields → ℤ → Option Str
look_up none id = none
look_up (some vlans) id = name_of (as_object (Json.get vlans (itoa id)))

unfoldable pub vlan_row : List Json.Fields → ℤ → Option Str
unfolding Json.get
vlan_row [] id = none
vlan_row (row ∷ _) id = look_up (as_object (Json.get row (codes "vlans"))) id

module _ (g : Goeapi) where
  open g use {World}

  -- `none` where the VLAN is absent.
  unfoldable pub read_vlan : Option (Eapi.Client g) → ℤ → Exec World (Option Str)
  unfolding Eapi.run_cmds vlan_row
  read_vlan c id = do
    resp ← Eapi.run_cmds g c (codes "show vlan" ∷ []) (codes "json")
    pure (vlan_row resp id)

  module _ (std : Std) (cfg : Config) where
    unfoldable pub apply : VlanArgs → Bool → Op g (Unit {0})
    unfolding apply_with build_vlan_cmds
    apply args remove =
        apply_with g std cfg args.access (codes "vlan-" ++ itoa args.id)
          (build_vlan_cmds args remove)

    unfoldable pub create : VlanArgs → Bool → Op g (CreateResponse VlanArgs)
    unfolding submit_with validate_vlan_id vlan_id apply
    create args dry_run =
        submit_with g (validate_vlan_id args.id) dry_run
          (record { id = vlan_id args.id; output = args }) (codes "create vlan %d: %w")
          (number args.id ∷ []) (apply args false)

    unfoldable pub update : VlanArgs → Bool → Op g VlanArgs
    unfolding submit_with validate_vlan_id apply
    update args dry_run =
        submit_with g (validate_vlan_id args.id) dry_run args (codes "update vlan %d: %w")
          (number args.id ∷ []) (apply args false)

    unfoldable pub delete : VlanArgs → Op g (Unit {0})
    unfolding delete_with apply
    delete args = delete_with g (codes "delete vlan %d: %w") (number args.id ∷ []) (apply args true)

    -- A name that the device does not show leaves the requested one.
    abbrev refreshed : VlanArgs → Option Str → Option (ReadResponse VlanArgs VlanArgs)
    refreshed args none = none
    refreshed args (some name) = some (record {
      id = vlan_id args.id;
      inputs = args;
      state = if str_eq name [] then args else record args { name = some name };
    })

    unfoldable pub read : VlanArgs → Exec World (Option (ReadResponse VlanArgs VlanArgs))
    unfolding new_client read_vlan vlan_id str_eq
    read args = do
      c ← new_client g std cfg args.access
      row ← read_vlan (some c) args.id
      pure (refreshed args row)
