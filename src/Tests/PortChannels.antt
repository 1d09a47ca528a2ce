-- ===== src/Tests/PortChannels.antt =====
-- A port-channel on the switch of the tests.
use pulumi_eos.Base.{true, false, [], ◌∷◌, none, some, ◌≡◌, ◌↔◌, refl, pos, ◌≤ℤ◌}
use pulumi_eos.Text.{codes}
use pulumi_eos.Text.Decimal.{itoa, atoi}
use pulumi_eos.Errors.Laws.{Passes}
use pulumi_eos.Eapi.Lab.{lab, lab_device, lab_step}
use pulumi_eos.Eapi.Device.{has_newline}
use pulumi_eos.Resource.Laws.{Applied, Submitted}
use pulumi_eos.L2.Switchport.Laws.{IfSet, IsConsistent}
use pulumi_eos.L2.PortChannel
use pulumi_eos.L2.PortChannel.{
  PortChannelArgs, switchport, validate_port_channel, build_port_channel_cmds, port_channel_id,
}
use pulumi_eos.L2.PortChannel.Parse.{parse_port_channel_config, empty_port_channel_row}
use pulumi_eos.L2.PortChannel.Laws.{
  IsFallback, OneLiners, session_name, validate_port_channel_iff, port_channel_transactions,
}
use pulumi_eos.Tests.{std, config, no_access, switch, seen}
use pulumi_eos.Tests.Vlans.{prefix-NoSpace}

abbrev bundle : PortChannelArgs
bundle = record {
  id = pos 7;
  description = none;
  mtu = none;
  shutdown = some true;
  switchport_mode = some (codes "access");
  access_vlan = some (pos 10);
  trunk_allowed_vlans = none;
  trunk_native_vlan = none;
  lacp_fallback = some (codes "static");
  lacp_fallback_timeout = some (pos 30);
  access = no_access;
}

create-bundle :
    seen (PortChannel.create lab std config bundle false (switch []))
    ≡ some (
      true,
      codes "hostname leaf-01"
          ∷ codes "interface Port-Channel7"
          ∷ codes "switchport"
          ∷ codes "switchport mode access"
          ∷ codes "switchport access vlan 10"
          ∷ codes "port-channel lacp fallback static"
          ∷ codes "port-channel lacp fallback timeout 30"
          ∷ codes "shutdown"
          ∷ [],
    )
unfolding PortChannel.create lab_step itoa
create-bundle = refl

parse_fallback :
    parse_port_channel_config
      (codes
        "interface Port-Channel7\n   port-channel lacp fallback timeout 30\n   port-channel lacp fallback static")
      (pos 7)
    ≡ some (record empty_port_channel_row {
      lacp_fallback = codes "static";
      lacp_fallback_timeout = pos 30;
    })
unfolding parse_port_channel_config itoa atoi
parse_fallback = refl

bundle-OneLiners : OneLiners bundle
unfolding has_newline
bundle-OneLiners = (tt, tt, refl)

validate_port_channel_iff_example : Passes (validate_port_channel bundle) ↔ (
    ((pos 1 ≤ℤ bundle.id) × (bundle.id ≤ℤ pos 2000))
    × IsConsistent (switchport bundle)
    × IfSet IsFallback bundle.lacp_fallback
    × IfSet (λ t. pos 1 ≤ℤ t) bundle.lacp_fallback_timeout)
validate_port_channel_iff_example = validate_port_channel_iff bundle

port_channel_transactions_example :
    Submitted lab lab_device
      (session_name config bundle)
      (build_port_channel_cmds bundle false)
      (validate_port_channel bundle)
      false
      (record { id = port_channel_id bundle.id; output = bundle })
      (switch [])
      (PortChannel.create lab std config bundle false (switch []))
    × Submitted lab lab_device
        (session_name config bundle)
        (build_port_channel_cmds bundle false)
        (validate_port_channel bundle)
        false
        bundle
        (switch [])
        (PortChannel.update lab std config bundle false (switch []))
    × Applied lab lab_device
        (session_name config bundle)
        (build_port_channel_cmds bundle true)
        (switch [])
        (PortChannel.delete lab std config bundle (switch []))
port_channel_transactions_example =
    port_channel_transactions lab lab_device std config bundle false (switch []) prefix-NoSpace
      bundle-OneLiners
