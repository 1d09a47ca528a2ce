-- ===== src/L2/Interface/Laws.antt =====
-- What the interface resource accepts, sends and leaves on the switch.
use pulumi_eos.Base.{
  Bool, true, false, not, ◌||◌, [], ◌∷◌, ◌++◌, Option, none, some, ◌≡◌, ◌↔◌, ◌⊎◌, refl, arith, All,
  ℤ, pos, ◌≤ℤ◌, ltb_ℤ,
}
use pulumi_eos.Text.{Str, codes, str_eq, trim_space}
use pulumi_eos.Text.Laws.{NoSpace, str_eq_iff}
use pulumi_eos.Errors.{text}
use pulumi_eos.Errors.Laws.{Passes, both_iff, refuse_iff}
use pulumi_eos.Goeapi.{Goeapi}
use pulumi_eos.Std.{Std}
use pulumi_eos.Eapi.Device.{SessionDevice}
use pulumi_eos.Eapi.Staying.{All-Stays-IsInside, session_name-IsWord, is_keyword}
use pulumi_eos.Config.{Config, session_prefix}
use pulumi_eos.Resource.Laws.{
  Applied, Submitted, apply_with-Applied, submit_with-Submitted, delete_with-Applied,
}
use pulumi_eos.L2.Switchport.Laws.{IfSet, IsConsistent, validate_switchport_iff}
use pulumi_eos.L2.Interface.{
  ChannelGroup, InterfaceArgs, validate_interface, validate_channel_group, known_cg_mode,
  switchport, interface_id, build_interface_cmds, sanitize_for_session, apply_interface, create,
  update, delete, mode_active, mode_passive, mode_on,
}
use pulumi_eos.L2.Interface.Staying.{
  NameRune, OneLiners, sanitize_for_session-NoSpace, build_interface_cmds-Stays,
}

-- A LACP group in 1..2000 with a known mode.
abbrev pub IsGroup : ChannelGroup → Type 0
IsGroup cg =
    ((cg.mode ≡ mode_active) ⊎ (cg.mode ≡ mode_passive) ⊎ (cg.mode ≡ mode_on))
    × ((pos 1 ≤ℤ cg.id) × (cg.id ≤ℤ pos 2000))

group_mode_iff :
    (m : Str)
    → (not (known_cg_mode m) ≡ false) ↔ ((m ≡ mode_active) ⊎ (m ≡ mode_passive) ⊎ (m ≡ mode_on))
group_mode_iff m =
    ground (arith, str_eq_iff m mode_active, str_eq_iff m mode_passive, str_eq_iff m mode_on)

group_id_iff :
    (i : ℤ) → ((ltb_ℤ i (pos 1) || ltb_ℤ (pos 2000) i) ≡ false) ↔ ((pos 1 ≤ℤ i) × (i ≤ℤ pos 2000))
group_id_iff i = ground arith

validate_channel_group_iff :
    (o : Option ChannelGroup) → Passes (validate_channel_group o) ↔ IfSet IsGroup o
unfolding validate_channel_group
validate_channel_group_iff none = (λ _. tt, λ _. refl)
validate_channel_group_iff (some cg) =
    both_iff _ _ (refuse_iff _ _ (group_mode_iff cg.mode)) (refuse_iff _ _ (group_id_iff cg.id))

named_iff : (n : Str) → (str_eq n [] ≡ false) ↔ ¬ (n ≡ [])
named_iff n = ground (arith, str_eq_iff n [])

-- An interface is accepted exactly when its name is more than blanks, its switchport block is
-- consistent, and its channel group, where it has one, is in 1..2000 with a known mode.
pub validate_interface_iff :
    (a : InterfaceArgs)
    → Passes (validate_interface a)
      ↔ (¬ (trim_space a.name ≡ []) × IsConsistent (switchport a) × IfSet IsGroup a.channel_group)
unfolding validate_interface
validate_interface_iff a =
    let n = both_iff _ _ (refuse_iff _ _ (named_iff (trim_space a.name))) (
      both_iff _ _ (validate_switchport_iff (switchport a))
        (validate_channel_group_iff a.channel_group)) in
    (λ h. let (p, q) = n.0 h in (p, q.0, q.1), λ h. n.1 (h.0, (h.1, h.2)))

abbrev pub session_name : Config → InterfaceArgs → Str
session_name cfg a = session_prefix cfg ++ (codes "iface-" ++ sanitize_for_session a.name)

module _ (g : Goeapi) (d : SessionDevice g) (std : Std) (cfg : Config) where
  apply-Applied :
      (a : InterfaceArgs) (reset : Bool) (w : g.World)
      → All NoSpace (session_prefix cfg)
      → All NameRune a.name
      → OneLiners a
      → Applied g d
          (session_name cfg a)
          (build_interface_cmds a reset)
          w
          (apply_interface g std cfg a reset w)
  unfolding apply_interface is_keyword
  apply-Applied a reset w hp hn h =
      apply_with-Applied g d std cfg a.access (codes "iface-" ++ sanitize_for_session a.name)
        (build_interface_cmds a reset) w
        (session_name-IsWord (session_prefix cfg) (codes "iface-") (sanitize_for_session a.name) hp
          refl (sanitize_for_session-NoSpace a.name hn))
        (All-Stays-IsInside (build_interface_cmds a reset) (build_interface_cmds-Stays a reset h))

  -- Creating, updating and deleting an interface's configuration are transactions on the switch, and
  -- always return. Create and Update succeed only for valid arguments; then the switch has the
  -- commands of the interface replayed, behind what a session of that name still held, or is
  -- unchanged in a dry run. With an error the switch is unchanged. Delete replays `default
  -- interface`, or leaves the switch unchanged with an error. The prefix of the session's name has no
  -- blanks, the interface's name has no spaces but blanks, and the texts are single lines.
  pub interface_transactions :
      (a : InterfaceArgs) (dry_run : Bool) (w : g.World)
      → All NoSpace (session_prefix cfg)
      → All NameRune a.name
      → OneLiners a
      → Submitted g d
          (session_name cfg a)
          (build_interface_cmds a false)
          (validate_interface a)
          dry_run
          (record { id = interface_id a.name; output = a })
          w
          (create g std cfg a dry_run w)
        × Submitted g d
            (session_name cfg a)
            (build_interface_cmds a false)
            (validate_interface a)
            dry_run
            a
            w
            (update g std cfg a dry_run w)
        × Applied g d (session_name cfg a) (build_interface_cmds a true) w (delete g std cfg a w)
  unfolding create update delete
  interface_transactions a dry_run w hp hn h = (
    submit_with-Submitted g d (session_name cfg a) (build_interface_cmds a false)
        (codes "create interface %s: %w") (text a.name ∷ [])
        (record { id = interface_id a.name; output = a }) (validate_interface a) dry_run
        (apply_interface g std cfg a false) w (apply-Applied a false w hp hn h),
    submit_with-Submitted g d (session_name cfg a) (build_interface_cmds a false)
        (codes "update interface %s: %w") (text a.name ∷ []) a (validate_interface a) dry_run
        (apply_interface g std cfg a false) w (apply-Applied a false w hp hn h),
    delete_with-Applied g d (session_name cfg a) (build_interface_cmds a true)
        (codes "delete (default) interface %s: %w") (text a.name ∷ [])
        (apply_interface g std cfg a true) w (apply-Applied a true w hp hn h),
  )
