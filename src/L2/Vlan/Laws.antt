-- ===== src/L2/Vlan/Laws.antt =====
-- What the VLAN resource accepts, sends and leaves on the switch.
use pulumi_eos.Base.{Bool, true, false, [], ◌∷◌, ◌++◌, ◌≡◌, ◌↔◌, refl, arith, All, ℤ, pos, ◌≤ℤ◌}
use pulumi_eos.Text.{Str, codes}
use pulumi_eos.Text.Decimal.{itoa}
use pulumi_eos.Text.Laws.{NoSpace}
use pulumi_eos.Errors.{ok, number}
use pulumi_eos.Goeapi.{Goeapi}
use pulumi_eos.Std.{Std}
use pulumi_eos.Eapi.Device.{SessionDevice, Stays, has_newline}
use pulumi_eos.Eapi.Staying.{
  All-Stays-IsInside, OneLine?, OneLine-append, command-Stays, text_cmd-Stays, itoa-OneLine,
  itoa-NoSpace, session_name-IsWord, is_keyword,
}
use pulumi_eos.Config.{Config, session_prefix}
use pulumi_eos.Resource.Laws.{
  Applied, Submitted, apply_with-Applied, submit_with-Submitted, delete_with-Applied,
}
use pulumi_eos.L2.Vlan.{
  VlanArgs, validate_vlan_id, vlan_id, build_vlan_cmds, apply, create, update, delete,
}

-- An identifier is accepted exactly when it lies in 1..4094.
pub validate_vlan_id_iff :
    (id : ℤ) → (validate_vlan_id id ≡ ok tt) ↔ ((pos 1 ≤ℤ id) × (id ≤ℤ pos 4094))
unfolding validate_vlan_id
validate_vlan_id_iff id = ground arith

pub build_vlan_cmds-Stays :
    (a : VlanArgs) (remove : Bool) → OneLine? a.name → All Stays (build_vlan_cmds a remove)
unfolding build_vlan_cmds is_keyword has_newline
build_vlan_cmds-Stays a true h = (
  command-Stays (codes "no") (codes "vlan " ++ itoa a.id) refl
      (OneLine-append (codes "vlan ") (itoa a.id) refl (itoa-OneLine a.id)),
  tt,
)
build_vlan_cmds-Stays a false h = (
  command-Stays (codes "vlan") (itoa a.id) refl (itoa-OneLine a.id),
  text_cmd-Stays (codes "name") [] a.name refl refl h,
)

abbrev pub session_name : Config → VlanArgs → Str
session_name cfg a = session_prefix cfg ++ (codes "vlan-" ++ itoa a.id)

module _ (g : Goeapi) (d : SessionDevice g) (std : Std) (cfg : Config) where
  pub apply-Applied :
      (a : VlanArgs) (remove : Bool) (w : g.World)
      → All NoSpace (session_prefix cfg)
      → OneLine? a.name
      → Applied g d (session_name cfg a) (build_vlan_cmds a remove) w (apply g std cfg a remove w)
  unfolding apply is_keyword
  apply-Applied a remove w hp h =
      apply_with-Applied g d std cfg a.access (codes "vlan-" ++ itoa a.id)
        (build_vlan_cmds a remove) w
        (session_name-IsWord (session_prefix cfg) (codes "vlan-") (itoa a.id) hp refl
          (itoa-NoSpace a.id))
        (All-Stays-IsInside (build_vlan_cmds a remove) (build_vlan_cmds-Stays a remove h))

  -- Creating, updating and deleting a VLAN are transactions on the switch, and always return.
  -- Create and Update succeed only for a valid identifier; then the switch has the commands of the
  -- VLAN replayed, behind what a session of that name still held, or is unchanged in a dry run. With
  -- an error the switch is unchanged. Delete replays `no vlan`, or leaves the switch unchanged with an
  -- error. The prefix of the session's name has no blanks, and the VLAN's name is one line.
  pub vlan_transactions :
      (a : VlanArgs) (dry_run : Bool) (w : g.World)
      → All NoSpace (session_prefix cfg)
      → OneLine? a.name
      → Submitted g d
          (session_name cfg a)
          (build_vlan_cmds a false)
          (validate_vlan_id a.id)
          dry_run
          (record { id = vlan_id a.id; output = a })
          w
          (create g std cfg a dry_run w)
        × Submitted g d
            (session_name cfg a)
            (build_vlan_cmds a false)
            (validate_vlan_id a.id)
            dry_run
            a
            w
            (update g std cfg a dry_run w)
        × Applied g d (session_name cfg a) (build_vlan_cmds a true) w (delete g std cfg a w)
  unfolding create update delete
  vlan_transactions a dry_run w hp h = (
    submit_with-Submitted g d (session_name cfg a) (build_vlan_cmds a false)
        (codes "create vlan %d: %w") (number a.id ∷ []) (record { id = vlan_id a.id; output = a })
        (validate_vlan_id a.id) dry_run (apply g std cfg a false) w (apply-Applied a false w hp h),
    submit_with-Submitted g d (session_name cfg a) (build_vlan_cmds a false)
        (codes "update vlan %d: %w") (number a.id ∷ []) a (validate_vlan_id a.id) dry_run
        (apply g std cfg a false) w (apply-Applied a false w hp h),
    delete_with-Applied g d (session_name cfg a) (build_vlan_cmds a true)
        (codes "delete vlan %d: %w") (number a.id ∷ []) (apply g std cfg a true) w
        (apply-Applied a true w hp h),
  )
