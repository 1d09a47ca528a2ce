-- ===== src/L2/VlanRange/Laws.antt =====
-- What the VLAN block resource accepts, sends, reads back and leaves on the switch.
use pulumi_eos.Base.{
  Bool, true, false, [], ◌∷◌, ◌++◌, ◌↔◌, refl, arith, All, All-append, ℤ, pos, ◌≤ℤ◌,
}
use pulumi_eos.Text.{Str, codes, is_space}
use pulumi_eos.Text.Decimal.{itoa}
use pulumi_eos.Text.Laws.{NoSpace}
use pulumi_eos.Errors.{number}
use pulumi_eos.Errors.Laws.{Passes}
use pulumi_eos.Goeapi.{Goeapi}
use pulumi_eos.Std.{Std}
use pulumi_eos.Eapi.Device.{SessionDevice, Stays, has_newline}
use pulumi_eos.Eapi.Staying.{
  All-Stays-IsInside, OneLine, OneLine?, OneLine-append, command-Stays, text_cmd-Stays,
  itoa-OneLine, itoa-NoSpace, session_name-IsWord, is_keyword,
}
use pulumi_eos.Config.{Config, session_prefix}
use pulumi_eos.Resource.Laws.{
  Applied, Submitted, apply_with-Applied, submit_with-Submitted, delete_with-Applied,
}
use pulumi_eos.L2.VlanRange.{
  VlanRangeArgs, validate_vlan_range, vlan_range_id, range_text, build_vlan_range_cmds,
  apply_vlan_range, create, update, delete,
}

-- A block is accepted exactly when 1 ≤ start ≤ end ≤ 4094.
pub validate_vlan_range_iff :
    (a : VlanRangeArgs)
    → Passes (validate_vlan_range a)
      ↔ ((pos 1 ≤ℤ a.start) × (a.start ≤ℤ a.end) × (a.end ≤ℤ pos 4094))
unfolding validate_vlan_range
validate_vlan_range_iff a = ground arith

range_text-OneLine : (s e : ℤ) → OneLine (range_text s e)
unfolding has_newline
range_text-OneLine s e =
    OneLine-append (itoa s) (codes "-" ++ itoa e) (itoa-OneLine s)
      (OneLine-append (codes "-") (itoa e) refl (itoa-OneLine e))

range_text-NoSpace : (s e : ℤ) → All NoSpace (range_text s e)
unfolding is_space
range_text-NoSpace s e =
    All-append NoSpace (itoa s) (codes "-" ++ itoa e) (itoa-NoSpace s) (refl, itoa-NoSpace e)

build_vlan_range_cmds-Stays :
    (a : VlanRangeArgs) (remove : Bool)
    → OneLine? a.name
    → All Stays (build_vlan_range_cmds a remove)
unfolding build_vlan_range_cmds is_keyword has_newline
build_vlan_range_cmds-Stays a true h = (
  command-Stays (codes "no") (codes "vlan " ++ range_text a.start a.end) refl (
      OneLine-append (codes "vlan ") (range_text a.start a.end) refl
        (range_text-OneLine a.start a.end)),
  tt,
)
build_vlan_range_cmds-Stays a false h = (
  command-Stays (codes "vlan") (range_text a.start a.end) refl (range_text-OneLine a.start a.end),
  text_cmd-Stays (codes "name") [] a.name refl refl h,
)

abbrev pub session_name : Config → VlanRangeArgs → Str
session_name cfg a = session_prefix cfg ++ (codes "vlanrange-" ++ range_text a.start a.end)

module _ (g : Goeapi) (d : SessionDevice g) (std : Std) (cfg : Config) where
  apply-Applied :
      (a : VlanRangeArgs) (remove : Bool) (w : g.World)
      → All NoSpace (session_prefix cfg)
      → OneLine? a.name
      → Applied g d
          (session_name cfg a)
          (build_vlan_range_cmds a remove)
          w
          (apply_vlan_range g std cfg a remove w)
  unfolding apply_vlan_range is_keyword
  apply-Applied a remove w hp h =
      apply_with-Applied g d std cfg a.access (codes "vlanrange-" ++ range_text a.start a.end)
        (build_vlan_range_cmds a remove) w
        (session_name-IsWord (session_prefix cfg) (codes "vlanrange-") (range_text a.start a.end) hp
          refl (range_text-NoSpace a.start a.end))
        (All-Stays-IsInside (build_vlan_range_cmds a remove)
          (build_vlan_range_cmds-Stays a remove h))

  -- Creating, updating and deleting a block of VLANs are transactions on the switch, and always
  -- return. Create and Update succeed only for a valid block; then the switch has the commands of the
  -- block replayed, behind what a session of that name still held, or is unchanged in a dry run.
  -- With an error the switch is unchanged. Delete replays `no vlan`, or leaves the switch unchanged
  -- with an error. The prefix of the session's name has no blanks, and the block's name is one line.
  pub vlan_range_transactions :
      (a : VlanRangeArgs) (dry_run : Bool) (w : g.World)
      → All NoSpace (session_prefix cfg)
      → OneLine? a.name
      → Submitted g d
          (session_name cfg a)
          (build_vlan_range_cmds a false)
          (validate_vlan_range a)
          dry_run
          (record { id = vlan_range_id a.start a.end; output = a })
          w
          (create g std cfg a dry_run w)
        × Submitted g d
            (session_name cfg a)
            (build_vlan_range_cmds a false)
            (validate_vlan_range a)
            dry_run
            a
            w
            (update g std cfg a dry_run w)
        × Applied g d (session_name cfg a) (build_vlan_range_cmds a true) w (delete g std cfg a w)
  unfolding create update delete
  vlan_range_transactions a dry_run w hp h = (
    submit_with-Submitted g d (session_name cfg a) (build_vlan_range_cmds a false)
        (codes "create vlan-range %d-%d: %w") (number a.start ∷ number a.end ∷ [])
        (record { id = vlan_range_id a.start a.end; output = a }) (validate_vlan_range a) dry_run
        (apply_vlan_range g std cfg a false) w (apply-Applied a false w hp h),
    submit_with-Submitted g d (session_name cfg a) (build_vlan_range_cmds a false)
        (codes "update vlan-range %d-%d: %w") (number a.start ∷ number a.end ∷ []) a
        (validate_vlan_range a) dry_run (apply_vlan_range g std cfg a false) w
        (apply-Applied a false w hp h),
    delete_with-Applied g d (session_name cfg a) (build_vlan_range_cmds a true)
        (codes "delete vlan-range %d-%d: %w") (number a.start ∷ number a.end ∷ [])
        (apply_vlan_range g std cfg a true) w (apply-Applied a true w hp h),
  )
