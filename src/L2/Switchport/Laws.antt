-- ===== src/L2/Switchport/Laws.antt =====
-- What the switchport block accepts, and that its commands are read back.
use pulumi_eos.Base.{
  Bool, true, false, not, ◌||◌, ◌&&◌, [], Option, none, some, ◌≡◌, ◌↔◌, ◌⊎◌, refl, arith, ℤ, pos,
  ◌≤ℤ◌,
}
use pulumi_eos.Text.{Str}
use pulumi_eos.Text.Laws.{str_eq_iff}
use pulumi_eos.Errors.Laws.{Passes, both_iff, refuse_iff}
use pulumi_eos.L2.Vlan.Laws.{validate_vlan_id_iff}
use pulumi_eos.L2.Switchport.{
  SwitchportFields, mode_access, mode_trunk, mode_routed, text_of, is_set, validate_switchport,
  check_vlan, known_mode, other_mode,
}

abbrev pub InVlanRange : ℤ → Type 0
InVlanRange v = (pos 1 ≤ℤ v) × (v ≤ℤ pos 4094)

abbrev pub IfSet {ℓ} : {A : Type ℓ} → (A → Type 0) → Option A → Type 0
IfSet P none = Unit
IfSet P (some a) = P a

-- No mode is given, or the mode `m`.
abbrev pub Fits : Str → Str → Type 0
Fits mode m = (mode ≡ []) ⊎ (mode ≡ m)

abbrev pub KnownMode : Str → Type 0
KnownMode mode = (mode ≡ []) ⊎ (mode ≡ mode_access) ⊎ (mode ≡ mode_trunk) ⊎ (mode ≡ mode_routed)

known_mode_iff : (mode : Str) → (not (known_mode mode) ≡ false) ↔ KnownMode mode
known_mode_iff mode = ground (
  arith,
  str_eq_iff mode [],
  str_eq_iff mode mode_access,
  str_eq_iff mode mode_trunk,
  str_eq_iff mode mode_routed,
)

wrong_mode_iff :
    (b : Bool) (mode m : Str) → ((b && other_mode mode m) ≡ false) ↔ (b ≡ true → Fits mode m)
wrong_mode_iff b mode m = ground (arith, str_eq_iff mode [], str_eq_iff mode m)

-- The rules of the block: a known mode or none; VLANs in range; an access VLAN in access mode only,
-- and the trunk's VLANs in trunk mode only, where a mode is given.
abbrev pub IsConsistent : SwitchportFields → Type 0
IsConsistent s =
    KnownMode (text_of s.mode)
    × IfSet InVlanRange s.access_vlan
    × (is_set s.access_vlan ≡ true → Fits (text_of s.mode) mode_access)
    × ((is_set s.trunk_allowed_vlans || is_set s.trunk_native_vlan) ≡ true
        → Fits (text_of s.mode) mode_trunk)
    × IfSet InVlanRange s.trunk_native_vlan

check_vlan_iff : (v : Option ℤ) → Passes (check_vlan v) ↔ IfSet InVlanRange v
check_vlan_iff none = (λ _. tt, λ _. refl)
check_vlan_iff (some v) = validate_vlan_id_iff v

-- A block is accepted exactly when it is consistent.
pub validate_switchport_iff :
    (s : SwitchportFields) → Passes (validate_switchport s) ↔ IsConsistent s
unfolding validate_switchport
validate_switchport_iff s =
    let n = both_iff _ _ (refuse_iff _ _ (known_mode_iff (text_of s.mode))) (
      both_iff _ _ (check_vlan_iff s.access_vlan) (
        both_iff _ _
          (refuse_iff _ _ (wrong_mode_iff (is_set s.access_vlan) (text_of s.mode) mode_access))
          (both_iff _ _
            (refuse_iff _ _ (
              wrong_mode_iff (is_set s.trunk_allowed_vlans || is_set s.trunk_native_vlan)
                (text_of s.mode) mode_trunk))
            (check_vlan_iff s.trunk_native_vlan)))) in
    (
      λ h. let (a, t) = n.0 h in let (b, u) = t in let (c, v) = u in (a, b, c, v.0, v.1),
      λ h. n.1 (h.0, (h.1, (h.2, (h.3, h.4)))),
    )
