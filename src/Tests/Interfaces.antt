-- ===== src/Tests/Interfaces.antt =====
-- An interface on the switch of the tests.
use pulumi_eos.Base.{true, false, [], ◌∷◌, none, some, ◌≡◌, ◌≢◌, ◌↔◌, inr, refl, pos, All, arith}
use pulumi_eos.Text.{codes, is_space, trim_space, trim_right, join}
use pulumi_eos.Text.Decimal.{itoa}
use pulumi_eos.Errors.Laws.{Passes}
use pulumi_eos.Eapi.Lab.{lab, lab_device, lab_step}
use pulumi_eos.Eapi.Device.{has_newline}
use pulumi_eos.Resource.Laws.{Applied, Submitted}
use pulumi_eos.L2.Switchport.{validate_switchport}
use pulumi_eos.L2.Switchport.Laws.{IsConsistent, IfSet, validate_switchport_iff}
use pulumi_eos.L2.Interface
use pulumi_eos.L2.Interface.{
  InterfaceArgs, switchport, validate_interface, build_interface_cmds, interface_id,
}
use pulumi_eos.L2.Interface.Laws.{
  IsGroup, session_name, validate_interface_iff, interface_transactions,
}
use pulumi_eos.L2.Interface.Staying.{NameRune, OneLiners}
use pulumi_eos.L2.Interface.Parse.{InterfaceRow, parse_interface_config, fill_state}
use pulumi_eos.L2.Interface.Block.{IsPrintable, block}
use pulumi_eos.L2.Interface.RoundTrip.{NoEmpty, unset, kept, fill_state-parse}
use pulumi_eos.Eapi.Staying.{is_keyword, is_keyword-IsWord}
use pulumi_eos.Tests.{std, config, no_access, switch, seen}
use pulumi_eos.Tests.Vlans.{prefix-NoSpace}

abbrev uplink : InterfaceArgs
uplink = record {
  name = codes "Et1/1";
  description = some (codes "to spine");
  mtu = some (pos 9214);
  shutdown = some false;
  switchport_mode = some (codes "trunk");
  access_vlan = none;
  trunk_allowed_vlans = some (codes "10-20");
  trunk_native_vlan = some (pos 10);
  channel_group = some (record { id = pos 7; mode = codes "active" });
  access = no_access;
}

create-uplink :
    seen (Interface.create lab std config uplink false (switch []))
    ≡ some (
      true,
      codes "hostname leaf-01"
          ∷ codes "interface Et1/1"
          ∷ codes "description to spine"
          ∷ codes "mtu 9214"
          ∷ codes "switchport"
          ∷ codes "switchport mode trunk"
          ∷ codes "switchport trunk allowed vlan 10-20"
          ∷ codes "switchport trunk native vlan 10"
          ∷ codes "channel-group 7 mode active"
          ∷ codes "no shutdown"
          ∷ [],
    )
unfolding Interface.create lab_step itoa
create-uplink = refl

uplink-OneLiners : OneLiners uplink
unfolding has_newline
uplink-OneLiners = (refl, refl, refl, refl)

uplink-NameRune : All NameRune uplink.name
unfolding is_space
uplink-NameRune = (inr refl, (inr refl, (inr refl, (inr refl, (inr refl, tt)))))

uplink-IsPrintable : IsPrintable uplink
unfolding is_space trim_right is_keyword
uplink-IsPrintable = (
  refl,
  omega arith,
  tt,
  refl,
  omega arith,
  (omega arith, (is_keyword-IsWord (codes "active") refl).0),
)

uplink-NoEmpty : NoEmpty uplink
uplink-NoEmpty = (λ e. cc, λ e. cc)

uplink-Passes : Passes (validate_interface uplink)
unfolding validate_interface trim_space is_space
uplink-Passes = refl

name-trimmed : trim_right uplink.name ≡ uplink.name
unfolding is_space trim_right
name-trimmed = refl

interface-ne-nil : uplink.name ≢ []
interface-ne-nil e = cc

validate_switchport_iff_example :
    Passes (validate_switchport (switchport uplink)) ↔ IsConsistent (switchport uplink)
validate_switchport_iff_example = validate_switchport_iff (switchport uplink)

validate_interface_iff_example : Passes (validate_interface uplink) ↔ (
    ¬ (trim_space uplink.name ≡ [])
    × IsConsistent (switchport uplink)
    × IfSet IsGroup uplink.channel_group)
validate_interface_iff_example = validate_interface_iff uplink

fill_state-parse_example :
    (row : InterfaceRow) × ((parse_interface_config (join (block uplink) (codes "\n")) uplink.name
        ≡ some row)
      × ((fill_state row (unset uplink) ≡ kept uplink) × (fill_state row uplink ≡ uplink)))
fill_state-parse_example =
    fill_state-parse uplink uplink-Passes interface-ne-nil name-trimmed uplink-OneLiners
      uplink-IsPrintable uplink-NoEmpty

interface_transactions_example :
    Submitted lab lab_device
      (session_name config uplink)
      (build_interface_cmds uplink false)
      (validate_interface uplink)
      false
      (record { id = interface_id uplink.name; output = uplink })
      (switch [])
      (Interface.create lab std config uplink false (switch []))
    × Submitted lab lab_device
        (session_name config uplink)
        (build_interface_cmds uplink false)
        (validate_interface uplink)
        false
        uplink
        (switch [])
        (Interface.update lab std config uplink false (switch []))
    × Applied lab lab_device
        (session_name config uplink)
        (build_interface_cmds uplink true)
        (switch [])
        (Interface.delete lab std config uplink (switch []))
interface_transactions_example =
    interface_transactions lab lab_device std config uplink false (switch []) prefix-NoSpace
      uplink-NameRune uplink-OneLiners
