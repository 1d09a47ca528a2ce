-- ===== src/L2/Interface/Staying.antt =====
-- The commands of an interface stay in the session, and its session's name has no blanks.
use pulumi_eos.Base.{
  ℕ, Bool, true, false, ◌||◌, [], ◌∷◌, ◌++◌, Option, none, some, ◌≡◌, ◌⊎◌, inl, inr, refl, arith,
  All, All-append, ℤ, pos, ltb_ℤ, if◌then◌else◌, append_assoc, ◌==◌, Bool-cases,
}
use pulumi_eos.Text.{Str, codes, str_eq, is_space}
use pulumi_eos.Text.Decimal.{itoa}
use pulumi_eos.Text.Laws.{NoSpace}
use pulumi_eos.Eapi.Device.{Stays, has_newline, leaves_session}
use pulumi_eos.Eapi.Staying.{
  OneLine, OneLine?, OneLine-append, command-Stays, text_cmd-Stays, itoa-OneLine, is_keyword,
}
use pulumi_eos.Commands.{number_cmd, positive_cmd}
use pulumi_eos.L2.Switchport.{
  mode_cmds, build_switchport_cmds, SwitchportFields, mode_routed, mode_access, mode_trunk,
}
use pulumi_eos.L2.Switchport.Laws.{IfSet}
use pulumi_eos.L2.Interface.{
  ChannelGroup, InterfaceArgs, switchport, build_interface_cmds, channel_group_cmd, shutdown_cmd,
  sanitize_for_session,
}

pub number_cmd-Stays :
    (w t : Str) (o : Option ℤ)
    → is_keyword w ≡ true
    → OneLine t
    → All Stays (number_cmd (w ++ b' ' ∷ t) o)
number_cmd-Stays w t none k lt = tt
number_cmd-Stays w t (some v) k lt = (
  rw append_assoc (command-Stays w (t ++ itoa v) k (OneLine-append t (itoa v) lt (itoa-OneLine v))),
  tt,
)

pub positive_cmd-Stays :
    (w t : Str) (o : Option ℤ)
    → is_keyword w ≡ true
    → OneLine t
    → All Stays (positive_cmd (w ++ b' ' ∷ t) o)
positive_cmd-Stays w t none k lt = tt
positive_cmd-Stays w t (some v) k lt = elim (Bool-cases (ltb_ℤ (pos 0) v)) [
  | inl e ↦ rw e (number_cmd-Stays w t (some v) k lt)
  | inr e ↦ rw e tt
]

mode_cmds-Stays : (o : Option Str) → All Stays (mode_cmds o)
unfolding leaves_session
mode_cmds-Stays none = tt
mode_cmds-Stays (some m) = elim (Bool-cases (str_eq m mode_routed)) [
  | inl e ↦ rw e (refl, tt)
  | inr e ↦ elim (Bool-cases (str_eq m mode_access)) [
    | inl f ↦ rw (e, f) (refl, (refl, tt))
    | inr f ↦ elim (Bool-cases (str_eq m mode_trunk)) [
      | inl h ↦ rw (e, f, h) (refl, (refl, tt))
      | inr h ↦ rw (e, f, h) tt
    ]
  ]
]

pub build_switchport_cmds-Stays :
    (s : SwitchportFields) → OneLine? s.trunk_allowed_vlans → All Stays (build_switchport_cmds s)
unfolding build_switchport_cmds is_keyword has_newline
build_switchport_cmds-Stays s h = All-append Stays _ _ (mode_cmds-Stays s.mode) (
    All-append Stays _ _
      (number_cmd-Stays (codes "switchport") (codes "access vlan ") s.access_vlan refl refl)
      (All-append Stays _ _
        (text_cmd-Stays (codes "switchport") (codes "trunk allowed vlan ") s.trunk_allowed_vlans
          refl refl h)
        (number_cmd-Stays (codes "switchport") (codes "trunk native vlan ") s.trunk_native_vlan refl
          refl)))

-- The texts of the arguments are single lines.
abbrev pub OneLiners : InterfaceArgs → Type 0
OneLiners a =
    OneLine a.name
    × OneLine? a.description
    × OneLine? a.trunk_allowed_vlans
    × IfSet (λ cg. OneLine cg.mode) a.channel_group

channel_group_cmd-Stays :
    (o : Option ChannelGroup) → IfSet (λ cg. OneLine cg.mode) o → All Stays (channel_group_cmd o)
unfolding is_keyword has_newline
channel_group_cmd-Stays none h = tt
channel_group_cmd-Stays (some cg) h = (
  command-Stays (codes "channel-group") (itoa cg.id ++ (codes " mode " ++ cg.mode)) refl (
      OneLine-append (itoa cg.id) (codes " mode " ++ cg.mode) (itoa-OneLine cg.id)
        (OneLine-append (codes " mode ") cg.mode refl h)),
  tt,
)

pub shutdown_cmd-Stays : (o : Option Bool) → All Stays (shutdown_cmd o)
unfolding leaves_session
shutdown_cmd-Stays none = tt
shutdown_cmd-Stays (some true) = (refl, tt)
shutdown_cmd-Stays (some false) = (refl, tt)

pub build_interface_cmds-Stays :
    (a : InterfaceArgs) (reset : Bool) → OneLiners a → All Stays (build_interface_cmds a reset)
unfolding build_interface_cmds is_keyword has_newline switchport
build_interface_cmds-Stays a true h = (
  command-Stays (codes "default") (codes "interface " ++ a.name) refl
      (OneLine-append (codes "interface ") a.name refl h.0),
  tt,
)
build_interface_cmds-Stays a false h = (
  command-Stays (codes "interface") a.name refl h.0,
  All-append Stays _ _ (text_cmd-Stays (codes "description") [] a.description refl refl h.1) (
      All-append Stays _ _ (positive_cmd-Stays (codes "mtu") [] a.mtu refl refl) (
        All-append Stays _ _ (build_switchport_cmds-Stays (switchport a) h.2) (
          All-append Stays _ _ (channel_group_cmd-Stays a.channel_group h.3)
            (shutdown_cmd-Stays a.shutdown)))),
)

-- A rune of an interface's name: a blank, or no space at all.
abbrev pub NameRune : ℕ → Type 0
NameRune c = (c ≡ b' ') ⊎ NoSpace c

hyphened : (c : ℕ) → NameRune c → NoSpace (if c == b'/' || c == b' ' || c == b':' then b'-' else c)
unfolding is_space
hyphened c h = ground arith

-- The session's name never has blanks, since each is replaced by a hyphen.
pub sanitize_for_session-NoSpace : (s : Str) → All NameRune s → All NoSpace (sanitize_for_session s)
unfolding sanitize_for_session
sanitize_for_session-NoSpace [] h = tt
sanitize_for_session-NoSpace (c ∷ s) (h, hs) = (hyphened c h, sanitize_for_session-NoSpace s hs)
