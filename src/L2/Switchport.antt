-- ===== src/L2/Switchport.antt =====
-- internal/resources/l2/switchport.go: the switchport block of an interface or a port-channel.
pub mod Laws
use pulumi_eos.Base.{
  Bool, true, false, not, ◌&&◌, ◌||◌, List, [], ◌∷◌, ◌++◌, Option, none, some, if◌then◌else◌, ℤ,
  pos, ltb_ℤ,
}
use pulumi_eos.Text.{Str, codes, str_eq, cut_prefix}
use pulumi_eos.Text.Decimal.{itoa, atoi}
use pulumi_eos.Errors.{GoError, sentinel, wrapped, text, Result, ok, err, ◌>>=◌, ◌>>◌, refuse_if}
use pulumi_eos.L2.Vlan.{validate_vlan_id}
use pulumi_eos.Commands.{text_cmd, number_cmd}

abbrev pub mode_access : Str
mode_access = codes "access"

abbrev pub mode_trunk : Str
mode_trunk = codes "trunk"

abbrev pub mode_routed : Str
mode_routed = codes "routed"

abbrev pub err_switchport_mode_invalid : GoError
err_switchport_mode_invalid = sentinel (codes "switchportMode must be access, trunk, or routed")

abbrev pub err_switchport_access_on_trunk : GoError
err_switchport_access_on_trunk =
    sentinel (codes "accessVlan is only valid when switchportMode=access")

abbrev pub err_switchport_trunk_on_access : GoError
err_switchport_trunk_on_access =
    sentinel (codes "trunkAllowedVlans / trunkNativeVlan only valid when switchportMode=trunk")

pub record SwitchportFields : Type 0 where
  pub mode : Option Str
  pub access_vlan : Option ℤ
  pub trunk_allowed_vlans : Option Str
  pub trunk_native_vlan : Option ℤ

abbrev pub text_of : Option Str → Str
text_of none = []
text_of (some s) = s

abbrev pub is_set {ℓ} : {A : Type ℓ} → Option A → Bool
is_set none = false
is_set (some a) = true

abbrev pub check_vlan : Option ℤ → Result (Unit {0})
check_vlan none = ok tt
check_vlan (some v) = validate_vlan_id v

-- `mode != "" && mode != m`
abbrev pub other_mode : Str → Str → Bool
other_mode mode m = not (str_eq mode []) && not (str_eq mode m)

abbrev pub known_mode : Str → Bool
known_mode mode =
    str_eq mode [] || str_eq mode mode_access || str_eq mode mode_trunk || str_eq mode mode_routed

unfoldable pub validate_switchport : SwitchportFields → Result (Unit {0})
unfolding validate_vlan_id str_eq
validate_switchport s = do
  let mode = text_of s.mode
  refuse_if (not (known_mode mode))
      (wrapped (codes "%w (got %q)") (text mode ∷ []) err_switchport_mode_invalid)
  check_vlan s.access_vlan
  refuse_if (is_set s.access_vlan && other_mode mode mode_access) err_switchport_access_on_trunk
  refuse_if
      ((is_set s.trunk_allowed_vlans || is_set s.trunk_native_vlan) && other_mode mode mode_trunk)
      err_switchport_trunk_on_access
  check_vlan s.trunk_native_vlan

abbrev pub mode_cmds : Option Str → List Str
mode_cmds none = []
mode_cmds (some m) =
    if str_eq m mode_routed
    then codes "no switchport" ∷ []
    else if str_eq m mode_access
    then codes "switchport" ∷ codes "switchport mode access" ∷ []
    else if str_eq m mode_trunk
    then codes "switchport" ∷ codes "switchport mode trunk" ∷ []
    else []

unfoldable pub build_switchport_cmds : SwitchportFields → List Str
unfolding str_eq
build_switchport_cmds s =
    mode_cmds s.mode
    ++ (number_cmd (codes "switchport access vlan ") s.access_vlan
        ++ (text_cmd (codes "switchport trunk allowed vlan ") s.trunk_allowed_vlans
            ++ number_cmd (codes "switchport trunk native vlan ") s.trunk_native_vlan))

pub record SwitchportRow : Type 0 where
  pub mode : Str
  pub no_switchport : Bool
  pub access_vlan : ℤ
  pub trunk_allowed_vlans : Str
  pub trunk_native_vlan : ℤ

abbrev pub empty_row : SwitchportRow
empty_row = record {
  mode = [];
  no_switchport = false;
  access_vlan = pos 0;
  trunk_allowed_vlans = [];
  trunk_native_vlan = pos 0;
}

-- `if v, err := strconv.Atoi(s); err == nil { field = v }`
abbrev pub taken_or : ℤ → Option ℤ → ℤ
taken_or old none = old
taken_or old (some v) = v

abbrev pub atoi_or : ℤ → Str → ℤ
atoi_or old s = taken_or old (atoi s)

-- The row after the line, and whether the line was a switchport directive.
unfoldable pub parse_switchport_line : Str → SwitchportRow → SwitchportRow × Bool
unfolding str_eq cut_prefix
parse_switchport_line line row =
    if str_eq line (codes "no switchport")
    then (record row { no_switchport = true; mode = mode_routed }, true)
    else if str_eq line (codes "switchport mode access")
    then (record row { mode = mode_access }, true)
    else if str_eq line (codes "switchport mode trunk")
    then (record row { mode = mode_trunk }, true)
    else elim (cut_prefix line (codes "switchport access vlan ")) [
      | some v ↦ (record row { access_vlan = atoi_or row.access_vlan v }, true)
      | none ↦ elim (cut_prefix line (codes "switchport trunk allowed vlan ")) [
        | some v ↦ (record row { trunk_allowed_vlans = v }, true)
        | none ↦ elim (cut_prefix line (codes "switchport trunk native vlan ")) [
          | some v ↦ (record row { trunk_native_vlan = atoi_or row.trunk_native_vlan v }, true)
          | none ↦ (row, false)
        ]
      ]
    ]

-- `if s != "" { field = &s }` and `if v > 0 { field = &v }`; the rest stays.
abbrev pub text_or : Option Str → Str → Option Str
text_or old s = if str_eq s [] then old else some s

abbrev pub positive_or : Option ℤ → ℤ → Option ℤ
positive_or old v = if ltb_ℤ (pos 0) v then some v else old

unfoldable pub fill_switchport : SwitchportRow → SwitchportFields → SwitchportFields
unfolding str_eq
fill_switchport r s = record {
  mode = text_or s.mode r.mode;
  access_vlan = positive_or s.access_vlan r.access_vlan;
  trunk_allowed_vlans = text_or s.trunk_allowed_vlans r.trunk_allowed_vlans;
  trunk_native_vlan = positive_or s.trunk_native_vlan r.trunk_native_vlan;
}
