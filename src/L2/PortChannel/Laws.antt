-- ===== src/L2/PortChannel/Laws.antt =====
-- What the port-channel resource accepts, sends and leaves on the switch.
use pulumi_eos.Base.{
  Bool, true, false, not, ◌||◌, [], ◌∷◌, ◌++◌, Option, none, some, ◌≡◌, ◌↔◌, ◌⊎◌, refl, arith, All,
  All-append, ℤ, pos, ◌≤ℤ◌, ltb_ℤ,
}
use pulumi_eos.Text.{Str, codes}
use pulumi_eos.Text.Decimal.{itoa}
use pulumi_eos.Text.Laws.{NoSpace, str_eq_iff}
use pulumi_eos.Errors.{number}
use pulumi_eos.Errors.Laws.{Passes, both_iff, refuse_iff}
use pulumi_eos.Goeapi.{Goeapi}
use pulumi_eos.Std.{Std}
use pulumi_eos.Eapi.Device.{SessionDevice, Stays, has_newline}
use pulumi_eos.Eapi.Staying.{
  All-Stays-IsInside, OneLine, OneLine?, OneLine-append, command-Stays, text_cmd-Stays,
  itoa-OneLine, itoa-NoSpace, session_name-IsWord, is_keyword,
}
use pulumi_eos.Config.{Config, session_prefix}
use pulumi_eos.Resource.Laws.{
  Applied, Submitted, apply_with-Applied, submit_with-Submitted, delete_with-Applied,
}
use pulumi_eos.L2.Switchport.Laws.{IfSet, IsConsistent, validate_switchport_iff}
use pulumi_eos.L2.Interface.Staying.{
  positive_cmd-Stays, build_switchport_cmds-Stays, shutdown_cmd-Stays,
}
use pulumi_eos.L2.PortChannel.{
  PortChannelArgs, switchport, known_fallback, check_fallback, check_timeout, validate_port_channel,
  lacp_fallback_static, lacp_fallback_individual, port_channel_id, port_channel_name,
  build_port_channel_cmds, apply_port_channel, create, update, delete,
}

abbrev pub IsFallback : Str → Type 0
IsFallback m = (m ≡ []) ⊎ (m ≡ lacp_fallback_static) ⊎ (m ≡ lacp_fallback_individual)

id_iff :
    (i : ℤ) → ((ltb_ℤ i (pos 1) || ltb_ℤ (pos 2000) i) ≡ false) ↔ ((pos 1 ≤ℤ i) × (i ≤ℤ pos 2000))
id_iff i = ground arith

known_fallback_iff : (m : Str) → (not (known_fallback m) ≡ false) ↔ IsFallback m
known_fallback_iff m = ground (
  arith,
  str_eq_iff m [],
  str_eq_iff m lacp_fallback_static,
  str_eq_iff m lacp_fallback_individual,
)

positive_iff : (t : ℤ) → (not (ltb_ℤ (pos 0) t) ≡ false) ↔ (pos 1 ≤ℤ t)
positive_iff t = ground arith

check_fallback_iff : (o : Option Str) → Passes (check_fallback o) ↔ IfSet IsFallback o
check_fallback_iff none = (λ _. tt, λ _. refl)
check_fallback_iff (some m) = refuse_iff _ _ (known_fallback_iff m)

check_timeout_iff : (o : Option ℤ) → Passes (check_timeout o) ↔ IfSet (λ t. pos 1 ≤ℤ t) o
check_timeout_iff none = (λ _. tt, λ _. refl)
check_timeout_iff (some t) = refuse_iff _ _ (positive_iff t)

-- A port-channel is accepted exactly when its number is in 1..2000, its switchport block is
-- consistent, its fallback mode is a known one or empty, and its timeout is positive, where they are
-- set.
pub validate_port_channel_iff :
    (a : PortChannelArgs)
    → Passes (validate_port_channel a) ↔ (
        ((pos 1 ≤ℤ a.id) × (a.id ≤ℤ pos 2000))
        × IsConsistent (switchport a)
        × IfSet IsFallback a.lacp_fallback
        × IfSet (λ t. pos 1 ≤ℤ t) a.lacp_fallback_timeout)
unfolding validate_port_channel
validate_port_channel_iff a =
    let n = both_iff _ _ (refuse_iff _ _ (id_iff a.id)) (
      both_iff _ _ (validate_switchport_iff (switchport a)) (
        both_iff _ _ (check_fallback_iff a.lacp_fallback)
          (check_timeout_iff a.lacp_fallback_timeout))) in
    (λ h. let (p, (q, (r, s))) = n.0 h in (p, q, r, s), λ (p, q, r, s). n.1 (p, (q, (r, s))))

-- The texts of the arguments are single lines.
abbrev pub OneLiners : PortChannelArgs → Type 0
OneLiners a = OneLine? a.description × OneLine? a.trunk_allowed_vlans × OneLine? a.lacp_fallback

name-OneLine : (id : ℤ) → OneLine (port_channel_name id)
unfolding has_newline
name-OneLine id = OneLine-append (codes "Port-Channel") (itoa id) refl (itoa-OneLine id)

build_port_channel_cmds-Stays :
    (a : PortChannelArgs) (remove : Bool)
    → OneLiners a
    → All Stays (build_port_channel_cmds a remove)
unfolding build_port_channel_cmds is_keyword has_newline switchport
build_port_channel_cmds-Stays a true h = (
  command-Stays (codes "no") (codes "interface " ++ port_channel_name a.id) refl
      (OneLine-append (codes "interface ") (port_channel_name a.id) refl (name-OneLine a.id)),
  tt,
)
build_port_channel_cmds-Stays a false h = (
  command-Stays (codes "interface") (port_channel_name a.id) refl (name-OneLine a.id),
  All-append Stays _ _ (text_cmd-Stays (codes "description") [] a.description refl refl h.0) (
      All-append Stays _ _ (positive_cmd-Stays (codes "mtu") [] a.mtu refl refl) (
        All-append Stays _ _ (build_switchport_cmds-Stays (switchport a) h.1) (
          All-append Stays _ _
            (text_cmd-Stays (codes "port-channel") (codes "lacp fallback ") a.lacp_fallback refl
              refl h.2)
            (All-append Stays _ _
              (positive_cmd-Stays (codes "port-channel") (codes "lacp fallback timeout ")
                a.lacp_fallback_timeout refl refl)
              (shutdown_cmd-Stays a.shutdown))))),
)

abbrev pub session_name : Config → PortChannelArgs → Str
session_name cfg a = session_prefix cfg ++ (codes "po-" ++ itoa a.id)

module _ (g : Goeapi) (d : SessionDevice g) (std : Std) (cfg : Config) where
  apply-Applied :
      (a : PortChannelArgs) (remove : Bool) (w : g.World)
      → All NoSpace (session_prefix cfg)
      → OneLiners a
      → Applied g d
          (session_name cfg a)
          (build_port_channel_cmds a remove)
          w
          (apply_port_channel g std cfg a remove w)
  unfolding apply_port_channel is_keyword
  apply-Applied a remove w hp h =
      apply_with-Applied g d std cfg a.access (codes "po-" ++ itoa a.id)
        (build_port_channel_cmds a remove) w
        (session_name-IsWord (session_prefix cfg) (codes "po-") (itoa a.id) hp refl
          (itoa-NoSpace a.id))
        (All-Stays-IsInside (build_port_channel_cmds a remove)
          (build_port_channel_cmds-Stays a remove h))

  -- Creating, updating and deleting a port-channel are transactions on the switch, and always return.
  -- Create and Update succeed only for valid arguments; then the switch has the commands of the
  -- port-channel replayed, behind what a session of that name still held, or is unchanged in a dry
  -- run. With an error the switch is unchanged. Delete replays `no interface`, or leaves the switch
  -- unchanged with an error. The prefix of the session's name has no blanks, and the texts are single
  -- lines.
  pub port_channel_transactions :
      (a : PortChannelArgs) (dry_run : Bool) (w : g.World)
      → All NoSpace (session_prefix cfg)
      → OneLiners a
      → Submitted g d
          (session_name cfg a)
          (build_port_channel_cmds a false)
          (validate_port_channel a)
          dry_run
          (record { id = port_channel_id a.id; output = a })
          w
          (create g std cfg a dry_run w)
        × Submitted g d
            (session_name cfg a)
            (build_port_channel_cmds a false)
            (validate_port_channel a)
            dry_run
            a
            w
            (update g std cfg a dry_run w)
        × Applied g d (session_name cfg a) (build_port_channel_cmds a true) w (delete g std cfg a w)
  unfolding create update delete
  port_channel_transactions a dry_run w hp h = (
    submit_with-Submitted g d (session_name cfg a) (build_port_channel_cmds a false)
        (codes "create port-channel %d: %w") (number a.id ∷ [])
        (record { id = port_channel_id a.id; output = a }) (validate_port_channel a) dry_run
        (apply_port_channel g std cfg a false) w (apply-Applied a false w hp h),
    submit_with-Submitted g d (session_name cfg a) (build_port_channel_cmds a false)
        (codes "update port-channel %d: %w") (number a.id ∷ []) a (validate_port_channel a) dry_run
        (apply_port_channel g std cfg a false) w (apply-Applied a false w hp h),
    delete_with-Applied g d (session_name cfg a) (build_port_channel_cmds a true)
        (codes "delete port-channel %d: %w") (number a.id ∷ [])
        (apply_port_channel g std cfg a true) w (apply-Applied a true w hp h),
  )
