-- ===== src/L2/Interface/Echo.antt =====
-- How `parseInterfaceConfig` reads the commands of one argument of an interface.
use pulumi_eos.Base.{
  Bool, true, false, [], ◌∷◌, ◌++◌, map, Option, none, some, ◌≡◌, refl, ℤ, pos, ltb_ℤ,
  if◌then◌else◌, Bool-cases, inl, inr,
}
use pulumi_eos.Text.{Str, codes, str_eq, is_space, trim_space, trim_right}
use pulumi_eos.Text.Decimal.{itoa, IsInt}
use pulumi_eos.Text.Laws.{trim_right-end}
use pulumi_eos.Text.Split.{IsWord, append-ne-nil}
use pulumi_eos.Commands.{text_cmd, number_cmd, positive_cmd}
use pulumi_eos.L2.Switchport.{
  SwitchportRow, mode_routed, mode_access, mode_trunk, mode_cmds, taken_or,
}
use pulumi_eos.L2.Switchport.Laws.{IfSet}
use pulumi_eos.L2.Interface.{ChannelGroup, channel_group_cmd, shutdown_cmd}
use pulumi_eos.L2.Interface.Parse.{InterfaceRow, parse_line, parse_lines}
use pulumi_eos.L2.Interface.Lines.{
  indent, line-description, line-mtu, line-access, line-native, line-allowed, line-group,
  parse_lines-indent, trim_right-itoa, trim_right-word,
}

-- A text without blanks at its end.
abbrev pub HasEnd : Option Str → Type 0
HasEnd = IfSet (λ s. trim_right s ≡ s)

-- What an optional text leaves in the row: an empty one is not sent.
abbrev pub given : Str → Option Str → Str
given old none = old
given old (some []) = old
given old (some (c ∷ s)) = c ∷ s

abbrev pub positive_of : ℤ → Option ℤ → ℤ
positive_of old none = old
positive_of old (some v) = if ltb_ℤ (pos 0) v then v else old

-- A mode that is none of the three is not sent.
abbrev pub mode_of : Str → Option Str → Str
mode_of old none = old
mode_of old (some m) =
    if str_eq m mode_routed
    then mode_routed
    else if str_eq m mode_access
    then mode_access
    else if str_eq m mode_trunk
    then mode_trunk
    else old

abbrev pub routed_of : Bool → Option Str → Bool
routed_of old none = old
routed_of old (some m) = if str_eq m mode_routed then true else old

abbrev pub mode_row : Option Str → SwitchportRow → SwitchportRow
mode_row o r = record r { no_switchport = routed_of r.no_switchport o; mode = mode_of r.mode o }

abbrev pub group_id_of : ℤ → Option ChannelGroup → ℤ
group_id_of old none = old
group_id_of old (some cg) = cg.id

abbrev pub group_mode_of : Str → Option ChannelGroup → Str
group_mode_of old none = old
group_mode_of old (some cg) = cg.mode

abbrev pub group_row : Option ChannelGroup → InterfaceRow → InterfaceRow
group_row o r = record r {
  channel_group_id = group_id_of r.channel_group_id o;
  channel_group_mode = group_mode_of r.channel_group_mode o;
}

abbrev pub shutdown_of : Bool → Option Bool → Bool
shutdown_of old none = old
shutdown_of old (some true) = true
shutdown_of old (some false) = old

abbrev pub shutdown_row : Option Bool → InterfaceRow → InterfaceRow
shutdown_row o r = record r { shutdown = shutdown_of r.shutdown o }

module _ (row : InterfaceRow) where
  pub echo-description :
      (o : Option Str)
      → HasEnd o
      → parse_lines (map indent (text_cmd (codes "description ") o)) row
        ≡ record row { description = given row.description o }
  unfolding parse_lines str_eq is_space
  echo-description none h = refl
  echo-description (some []) h = refl
  echo-description (some (c ∷ s)) h =
      parse_lines-indent b'd' _ [] row _ refl
        (trim_right-end (codes "description ") (c ∷ s) (λ e. cc) h) (line-description row (c ∷ s))

  pub echo-mtu :
      (o : Option ℤ)
      → IfSet IsInt o
      → parse_lines (map indent (positive_cmd (codes "mtu ") o)) row
        ≡ record row { mtu = positive_of row.mtu o }
  unfolding parse_lines is_space
  echo-mtu none h = refl
  echo-mtu (some v) h = elim (Bool-cases (ltb_ℤ (pos 0) v)) [
    | inl e ↦ rw e (
        parse_lines-indent b'm' _ [] row _ refl (trim_right-itoa (codes "mtu ") v)
          (line-mtu row v h))
    | inr e ↦ rw e refl
  ]

  pub echo-mode :
      (o : Option Str)
      → parse_lines (map indent (mode_cmds o)) row
        ≡ record row { switchport = mode_row o row.switchport }
  unfolding parse_lines parse_line trim_space is_space
  echo-mode none = refl
  echo-mode (some m) = elim (Bool-cases (str_eq m mode_routed)) [
    | inl e ↦ rw e refl
    | inr e ↦ elim (Bool-cases (str_eq m mode_access)) [
      | inl f ↦ rw (e, f) refl
      | inr f ↦ elim (Bool-cases (str_eq m mode_trunk)) [
        | inl k ↦ rw (e, f, k) refl
        | inr k ↦ rw (e, f, k) refl
      ]
    ]
  ]

  pub echo-access :
      (o : Option ℤ)
      → IfSet IsInt o
      → parse_lines (map indent (number_cmd (codes "switchport access vlan ") o)) row ≡ record row {
        switchport = record row.switchport { access_vlan = taken_or row.switchport.access_vlan o };
      }
  unfolding parse_lines is_space
  echo-access none h = refl
  echo-access (some v) h =
      parse_lines-indent b's' _ [] row _ refl (trim_right-itoa (codes "switchport access vlan ") v)
        (line-access row v h)

  pub echo-native :
      (o : Option ℤ)
      → IfSet IsInt o
      → parse_lines (map indent (number_cmd (codes "switchport trunk native vlan ") o)) row
        ≡ record row {
          switchport = record row.switchport {
            trunk_native_vlan = taken_or row.switchport.trunk_native_vlan o;
          };
        }
  unfolding parse_lines is_space
  echo-native none h = refl
  echo-native (some v) h =
      parse_lines-indent b's' _ [] row _ refl
        (trim_right-itoa (codes "switchport trunk native vlan ") v) (line-native row v h)

  pub echo-allowed :
      (o : Option Str)
      → HasEnd o
      → parse_lines (map indent (text_cmd (codes "switchport trunk allowed vlan ") o)) row
        ≡ record row {
          switchport = record row.switchport {
            trunk_allowed_vlans = given row.switchport.trunk_allowed_vlans o;
          };
        }
  unfolding parse_lines str_eq is_space
  echo-allowed none h = refl
  echo-allowed (some []) h = refl
  echo-allowed (some (c ∷ s)) h =
      parse_lines-indent b's' _ [] row _ refl
        (trim_right-end (codes "switchport trunk allowed vlan ") (c ∷ s) (λ e. cc) h)
        (line-allowed row (c ∷ s))

  pub echo-group :
      (o : Option ChannelGroup)
      → IfSet (λ cg. IsInt cg.id × IsWord cg.mode) o
      → parse_lines (map indent (channel_group_cmd o)) row ≡ group_row o row
  unfolding parse_lines is_space
  echo-group none h = refl
  echo-group (some cg) h =
      parse_lines-indent b'c' _ [] row _ refl
        (trim_right-end (codes "channel-group ") (itoa cg.id ++ (codes " mode " ++ cg.mode))
          (append-ne-nil (itoa cg.id) (codes " mode " ++ cg.mode) (λ e. cc))
          (trim_right-end (itoa cg.id) (codes " mode " ++ cg.mode) (λ e. cc)
            (trim_right-word (codes " mode ") cg.mode h.1)))
        (line-group row cg.id cg.mode h.0 h.1)

  pub echo-shutdown :
      (o : Option Bool) → parse_lines (map indent (shutdown_cmd o)) row ≡ shutdown_row o row
  unfolding parse_lines parse_line trim_space is_space
  echo-shutdown none = refl
  echo-shutdown (some true) = refl
  echo-shutdown (some false) = refl
