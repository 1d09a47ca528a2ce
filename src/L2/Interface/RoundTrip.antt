-- ===== src/L2/Interface/RoundTrip.antt =====
-- What Read makes of the block that the commands of an interface leave.
use pulumi_eos.Base.{
  Bool, true, false, [], ◌∷◌, Option, none, some, ◌≡◌, ◌≢◌, inl, inr, refl, arith, ℤ, pos, ltb_ℤ,
  if◌then◌else◌,
}
use pulumi_eos.Text.{Str, codes, str_eq, join, trim_right}
use pulumi_eos.Commands.{set_text, is_on}
use pulumi_eos.Errors.Laws.{Passes}
use pulumi_eos.L2.Switchport.{taken_or, fill_switchport, text_or, positive_or, text_of}
use pulumi_eos.L2.Switchport.Laws.{IfSet, IsConsistent, KnownMode, InVlanRange}
use pulumi_eos.L2.Interface.{ChannelGroup, InterfaceArgs, switchport, validate_interface}
use pulumi_eos.L2.Interface.Laws.{IsGroup, validate_interface_iff}
use pulumi_eos.L2.Interface.Staying.{OneLiners}
use pulumi_eos.L2.Interface.Parse.{InterfaceRow, parse_interface_config, fill_state}
use pulumi_eos.L2.Interface.Echo.{
  given, positive_of, mode_of, shutdown_of, group_id_of, group_mode_of,
}
use pulumi_eos.L2.Interface.Block.{IsPrintable, block, row_of, parse-block}

-- The texts of the switchport block are not empty where they are set.
abbrev pub NoEmpty : InterfaceArgs → Type 0
NoEmpty a = IfSet (λ s. s ≢ []) a.switchport_mode × IfSet (λ s. s ≢ []) a.trunk_allowed_vlans

fill-text : (o : Option Str) → text_or o (given [] o) ≡ o
unfolding str_eq
fill-text none = refl
fill-text (some []) = refl
fill-text (some (c ∷ s)) = refl

fill-set : (o : Option Str) → IfSet (λ s. s ≢ []) o → text_or none (given [] o) ≡ o
unfolding str_eq
fill-set none h = refl
fill-set (some []) h = absurd (h refl)
fill-set (some (c ∷ s)) h = refl

fill-mtu : (o : Option ℤ) → positive_or o (positive_of (pos 0) o) ≡ o
fill-mtu none = refl
fill-mtu (some v) = ground arith

fill-vlan : (o : Option ℤ) → IfSet InVlanRange o → positive_or none (taken_or (pos 0) o) ≡ o
fill-vlan none h = refl
fill-vlan (some v) h = ground arith

fill-mode :
    (o : Option Str)
    → IfSet (λ s. s ≢ []) o
    → KnownMode (text_of o)
    → text_or none (mode_of [] o) ≡ o
unfolding str_eq
fill-mode none h k = refl
fill-mode (some m) h (inl e) = absurd (h e)
fill-mode (some m) h (inr (inl e)) = rw e refl
fill-mode (some m) h (inr (inr (inl e))) = rw e refl
fill-mode (some m) h (inr (inr (inr e))) = rw e refl

fill-shutdown : (o : Option Bool) → (if shutdown_of false o then some true else o) ≡ o
fill-shutdown none = refl
fill-shutdown (some true) = refl
fill-shutdown (some false) = refl

fill-group :
    (o : Option ChannelGroup)
    → IfSet IsGroup o
    → (if ltb_ℤ (pos 0) (group_id_of (pos 0) o)
        then some (record { id = group_id_of (pos 0) o; mode = group_mode_of [] o })
        else o)
      ≡ o
fill-group none h = refl
fill-group (some cg) h = ground arith

rebuilt :
    (a : InterfaceArgs) {d : Option Str} {m : Option ℤ} {down : Option Bool} {mode : Option Str}
    {access : Option ℤ} {allowed : Option Str} {native : Option ℤ} {group : Option ChannelGroup}
    → d ≡ a.description
    → m ≡ a.mtu
    → down ≡ a.shutdown
    → mode ≡ a.switchport_mode
    → access ≡ a.access_vlan
    → allowed ≡ a.trunk_allowed_vlans
    → native ≡ a.trunk_native_vlan
    → group ≡ a.channel_group
    → record a {
      description = d;
      mtu = m;
      shutdown = down;
      switchport_mode = mode;
      access_vlan = access;
      trunk_allowed_vlans = allowed;
      trunk_native_vlan = native;
      channel_group = group;
    }
      ≡ a
rebuilt a e f h k l m n o = rw (e, f, h, k, l, m, n, o) refl

fill_state-row_of :
    (a : InterfaceArgs)
    → IsConsistent (switchport a)
    → IfSet IsGroup a.channel_group
    → NoEmpty a
    → fill_state (row_of a) a ≡ a
unfolding fill_state switchport fill_switchport
fill_state-row_of a (known, access, _, _, native) group (hm, ht) =
    rebuilt a (fill-text a.description) (fill-mtu a.mtu) (fill-shutdown a.shutdown)
      (fill-mode a.switchport_mode hm known) (fill-vlan a.access_vlan access)
      (fill-set a.trunk_allowed_vlans ht) (fill-vlan a.trunk_native_vlan native)
      (fill-group a.channel_group group)

-- The interface with nothing known of it but its name.
abbrev pub unset : InterfaceArgs → InterfaceArgs
unset a = record a {
  description = none;
  mtu = none;
  shutdown = none;
  switchport_mode = none;
  access_vlan = none;
  trunk_allowed_vlans = none;
  trunk_native_vlan = none;
  channel_group = none;
}

-- A positive number; any other is not sent.
abbrev pub positive : Option ℤ → Option ℤ
positive none = none
positive (some v) = if ltb_ℤ (pos 0) v then some v else none

-- What a configuration can show of the arguments: no empty description, no MTU that is not positive,
-- and no state that is not down.
abbrev pub kept : InterfaceArgs → InterfaceArgs
kept a = record a {
  description = set_text a.description;
  mtu = positive a.mtu;
  shutdown = if is_on a.shutdown then some true else none;
}

read-text : (o : Option Str) → text_or none (given [] o) ≡ set_text o
unfolding str_eq
read-text none = refl
read-text (some []) = refl
read-text (some (c ∷ s)) = refl

read-mtu : (o : Option ℤ) → positive_or none (positive_of (pos 0) o) ≡ positive o
read-mtu none = refl
read-mtu (some v) = ground arith

read-shutdown :
    (o : Option Bool)
    → (if shutdown_of false o then some true else none) ≡ (if is_on o then some true else none)
read-shutdown none = refl
read-shutdown (some true) = refl
read-shutdown (some false) = refl

read-group :
    (o : Option ChannelGroup)
    → IfSet IsGroup o
    → (if ltb_ℤ (pos 0) (group_id_of (pos 0) o)
        then some (record { id = group_id_of (pos 0) o; mode = group_mode_of [] o })
        else none)
      ≡ o
read-group none h = refl
read-group (some cg) h = ground arith

fill_state-unset :
    (a : InterfaceArgs)
    → IsConsistent (switchport a)
    → IfSet IsGroup a.channel_group
    → NoEmpty a
    → fill_state (row_of a) (unset a) ≡ kept a
unfolding fill_state switchport fill_switchport
fill_state-unset a (known, access, _, _, native) group (hm, ht) =
    rebuilt (kept a) (read-text a.description) (read-mtu a.mtu) (read-shutdown a.shutdown)
      (fill-mode a.switchport_mode hm known) (fill-vlan a.access_vlan access)
      (fill-set a.trunk_allowed_vlans ht) (fill-vlan a.trunk_native_vlan native)
      (read-group a.channel_group group)

-- Read gives back what Create sent: for valid arguments, the parser finds a row in the block of the
-- interface as the configuration shows it. With nothing known before but the name, the state filled
-- from that row has the description, the MTU, the switchport block and the channel group that were
-- sent, and the shutdown where it is on; an empty description and an MTU that is not positive are not
-- sent. Filled into the arguments themselves, the row changes nothing. The name and the texts are
-- single lines with no blanks at their ends, the mode and the list of VLANs are not empty texts, and
-- the numbers are Go's `int`.
pub fill_state-parse :
    (a : InterfaceArgs)
    → Passes (validate_interface a)
    → a.name ≢ []
    → trim_right a.name ≡ a.name
    → OneLiners a
    → IsPrintable a
    → NoEmpty a
    → (row : InterfaceRow) × ((parse_interface_config (join (block a) (codes "\n")) a.name
          ≡ some row)
        × ((fill_state row (unset a) ≡ kept a) × (fill_state row a ≡ a)))
fill_state-parse a valid ne h one p full =
    let (_, consistent, group) = (validate_interface_iff a).0 valid in
    (
      row_of a,
      (
        parse-block a ne h one p,
        (fill_state-unset a consistent group full, fill_state-row_of a consistent group full),
      ),
    )
