-- ===== src/Tests/Blocks.antt =====
-- Blocks of VLANs on the switch of the tests.
use pulumi_eos.Base.{true, false, [], ◌∷◌, some, ◌≡◌, ◌↔◌, refl, pos, ◌≤ℤ◌}
use pulumi_eos.Text.{codes}
use pulumi_eos.Text.Decimal.{itoa}
use pulumi_eos.Errors.Laws.{Passes}
use pulumi_eos.Eapi.Lab.{lab, lab_device, lab_step}
use pulumi_eos.Eapi.Device.{has_newline}
use pulumi_eos.Eapi.Staying.{OneLine?}
use pulumi_eos.Resource.Laws.{Applied, Submitted}
use pulumi_eos.L2.VlanRange
use pulumi_eos.L2.VlanRange.{
  VlanRangeArgs, validate_vlan_range, build_vlan_range_cmds, vlan_range_id,
}
use pulumi_eos.L2.VlanRange.Laws.{vlan_range_transactions, validate_vlan_range_iff, session_name}
use pulumi_eos.Tests.{std, config, no_access, switch, seen}
use pulumi_eos.Tests.Vlans.{prefix-NoSpace}

abbrev tenants : VlanRangeArgs
tenants = record {
  start = pos 100;
  end = pos 199;
  name = some (codes "tenants");
  access = no_access;
}

tenants-OneLine : OneLine? tenants.name
unfolding has_newline
tenants-OneLine = refl

create-tenants :
    seen (VlanRange.create lab std config tenants false (switch []))
    ≡ some (true, codes "hostname leaf-01" ∷ codes "vlan 100-199" ∷ codes "name tenants" ∷ [])
unfolding VlanRange.create lab_step itoa
create-tenants = refl

validate_vlan_range_iff_example :
    Passes (validate_vlan_range tenants)
    ↔ ((pos 1 ≤ℤ tenants.start) × (tenants.start ≤ℤ tenants.end) × (tenants.end ≤ℤ pos 4094))
validate_vlan_range_iff_example = validate_vlan_range_iff tenants

vlan_range_transactions_example :
    Submitted lab lab_device
      (session_name config tenants)
      (build_vlan_range_cmds tenants false)
      (validate_vlan_range tenants)
      false
      (record { id = vlan_range_id tenants.start tenants.end; output = tenants })
      (switch [])
      (VlanRange.create lab std config tenants false (switch []))
    × Submitted lab lab_device
        (session_name config tenants)
        (build_vlan_range_cmds tenants false)
        (validate_vlan_range tenants)
        false
        tenants
        (switch [])
        (VlanRange.update lab std config tenants false (switch []))
    × Applied lab lab_device
        (session_name config tenants)
        (build_vlan_range_cmds tenants true)
        (switch [])
        (VlanRange.delete lab std config tenants (switch []))
vlan_range_transactions_example =
    vlan_range_transactions lab lab_device std config tenants false (switch []) prefix-NoSpace
      tenants-OneLine
