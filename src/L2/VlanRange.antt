-- ===== src/L2/VlanRange.antt =====
-- internal/resources/l2/vlan_range.go.
pub mod Laws
use pulumi_eos.Base.{
  Bool, true, false, not, ◌&&◌, List, [], ◌∷◌, ◌++◌, Option, none, some, if◌then◌else◌, ℤ, ltb_ℤ,
}
use pulumi_eos.Text.{Str, codes, str_eq, cut_prefix}
use pulumi_eos.Text.Decimal.{itoa}
use pulumi_eos.Errors.{GoError, sentinel, wrapped, number, Result, ok, err}
use pulumi_eos.Json
use pulumi_eos.Exec.{Exec, pure, ◌>>=◌}
use pulumi_eos.Goeapi.{Goeapi}
use pulumi_eos.Std.{Std}
use pulumi_eos.Eapi
use pulumi_eos.Config.{Config}
use pulumi_eos.Resource.{
  Access, CreateResponse, ReadResponse, Op, new_client, apply_with, submit_with, delete_with,
}
use pulumi_eos.L2.Vlan.{out_of_range, vlan_row}
use pulumi_eos.Commands.{text_cmd}

abbrev pub err_vlan_range_start_range : GoError
err_vlan_range_start_range = sentinel (codes "vlanRange start must be in 1..4094")

abbrev pub err_vlan_range_end_range : GoError
err_vlan_range_end_range = sentinel (codes "vlanRange end must be in 1..4094")

abbrev pub err_vlan_range_start_gt_end : GoError
err_vlan_range_start_gt_end = sentinel (codes "vlanRange start must be <= end")

pub record VlanRangeArgs : Type 0 where
  pub start : ℤ
  pub end : ℤ
  pub name : Option Str
  pub access : Access

unfoldable pub validate_vlan_range : VlanRangeArgs → Result (Unit {0})
validate_vlan_range a =
    if out_of_range a.start
    then err (wrapped (codes "%w (got %d)") (number a.start ∷ []) err_vlan_range_start_range)
    else if out_of_range a.end
    then err (wrapped (codes "%w (got %d)") (number a.end ∷ []) err_vlan_range_end_range)
    else if ltb_ℤ a.end a.start
    then err (
        wrapped (codes "%w (got %d > %d)") (number a.start ∷ number a.end ∷ [])
          err_vlan_range_start_gt_end)
    else ok tt

-- `strconv.Itoa(start) + "-" + strconv.Itoa(end)`
abbrev pub range_text : ℤ → ℤ → Str
range_text start end = itoa start ++ (codes "-" ++ itoa end)

unfoldable pub vlan_range_id : ℤ → ℤ → Str
vlan_range_id start end = codes "vlan-range/" ++ range_text start end

unfoldable pub build_vlan_range_cmds : VlanRangeArgs → Bool → List Str
unfolding str_eq
build_vlan_range_cmds a remove =
    if remove
    then (codes "no vlan " ++ range_text a.start a.end) ∷ []
    else (codes "vlan " ++ range_text a.start a.end) ∷ text_cmd (codes "name ") a.name

module _ (g : Goeapi) where
  open g use {World}

  -- The same question and the same reading of the reply as `readVlan`.
  unfoldable pub read_vlan_for_range : Option (Eapi.Client g) → ℤ → Exec World (Option Str)
  unfolding Eapi.run_cmds vlan_row
  read_vlan_for_range c id = do
    resp ← Eapi.run_cmds g c (codes "show vlan" ∷ []) (codes "json")
    pure (vlan_row resp id)

  module _ (std : Std) (cfg : Config) where
    unfoldable pub apply_vlan_range : VlanRangeArgs → Bool → Op g (Unit {0})
    unfolding apply_with build_vlan_range_cmds
    apply_vlan_range a remove =
        apply_with g std cfg a.access (codes "vlanrange-" ++ range_text a.start a.end)
          (build_vlan_range_cmds a remove)

    unfoldable pub create : VlanRangeArgs → Bool → Op g (CreateResponse VlanRangeArgs)
    unfolding submit_with validate_vlan_range vlan_range_id apply_vlan_range
    create a dry_run =
        submit_with g (validate_vlan_range a) dry_run
          (record { id = vlan_range_id a.start a.end; output = a })
          (codes "create vlan-range %d-%d: %w") (number a.start ∷ number a.end ∷ [])
          (apply_vlan_range a false)

    unfoldable pub update : VlanRangeArgs → Bool → Op g VlanRangeArgs
    unfolding submit_with validate_vlan_range apply_vlan_range
    update a dry_run =
        submit_with g (validate_vlan_range a) dry_run a (codes "update vlan-range %d-%d: %w")
          (number a.start ∷ number a.end ∷ []) (apply_vlan_range a false)

    unfoldable pub delete : VlanRangeArgs → Op g (Unit {0})
    unfolding delete_with apply_vlan_range
    delete a =
        delete_with g (codes "delete vlan-range %d-%d: %w") (number a.start ∷ number a.end ∷ [])
          (apply_vlan_range a true)

    -- `startName != "" && !strings.HasPrefix(startName, "VLAN")`
    abbrev pub user_name : Str → Bool
    user_name s =
        not (str_eq s []) && elim (cut_prefix s (codes "VLAN")) [ none ↦ true | some _ ↦ false ]

    abbrev found : VlanRangeArgs → Str → ReadResponse VlanRangeArgs VlanRangeArgs
    found a start_name = record {
      id = vlan_range_id a.start a.end;
      inputs = a;
      state = if user_name start_name then record a { name = some start_name } else a;
    }

    -- Both ends of the block are to be there; the name is that of the first.
    abbrev refreshed :
        VlanRangeArgs → Option Str → Option Str → Option (ReadResponse VlanRangeArgs VlanRangeArgs)
    refreshed a none _ = none
    refreshed a (some start_name) none = none
    refreshed a (some start_name) (some _) = some (found a start_name)

    unfoldable pub read :
        VlanRangeArgs → Exec World (Option (ReadResponse VlanRangeArgs VlanRangeArgs))
    unfolding new_client read_vlan_for_range vlan_range_id str_eq cut_prefix
    read a = do
      c ← new_client g std cfg a.access
      first ← read_vlan_for_range (some c) a.start
      last ← read_vlan_for_range (some c) a.end
      pure (refreshed a first last)
