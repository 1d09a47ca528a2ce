-- ===== src/Tests/Vlans.antt =====
-- The VLAN resources on the switch of the tests.
use pulumi_eos.Base.{true, false, [], ◌∷◌, some, ◌≡◌, refl, pos, ◌↔◌, ◌≤ℤ◌}
use pulumi_eos.Text.{codes, is_space}
use pulumi_eos.Text.Decimal.{itoa}
use pulumi_eos.Text.Laws.{NoSpace}
use pulumi_eos.Base.{All}
use pulumi_eos.Errors.{ok}
use pulumi_eos.Eapi.Lab.{lab, lab_device, lab_step}
use pulumi_eos.Eapi.Device.{has_newline}
use pulumi_eos.Eapi.Staying.{OneLine?}
use pulumi_eos.Config.{session_prefix}
use pulumi_eos.Resource.Laws.{Applied, Submitted}
use pulumi_eos.L2.Vlan
use pulumi_eos.L2.Vlan.{VlanArgs, validate_vlan_id, build_vlan_cmds, vlan_id}
use pulumi_eos.L2.Vlan.Laws.{validate_vlan_id_iff, vlan_transactions, session_name}
use pulumi_eos.Tests.{std, config, no_access, switch, seen}

abbrev web : VlanArgs
web = record { id = pos 10; name = some (codes "web"); access = no_access }

pub prefix-NoSpace : All NoSpace (session_prefix config)
unfolding session_prefix is_space
prefix-NoSpace = (refl, (refl, (refl, (refl, (refl, (refl, (refl, tt)))))))

web-OneLine : OneLine? web.name
unfolding has_newline
web-OneLine = refl

create-web :
    seen (Vlan.create lab std config web false (switch []))
    ≡ some (true, codes "hostname leaf-01" ∷ codes "vlan 10" ∷ codes "name web" ∷ [])
unfolding Vlan.create lab_step itoa
create-web = refl

-- Staging fails, and so does the commit of another run.
failed_creates :
    (seen (Vlan.create lab std config web false (switch (false ∷ true ∷ [])))
      ≡ some (false, codes "hostname leaf-01" ∷ []))
    × (seen (Vlan.create lab std config web false (switch (false ∷ false ∷ true ∷ [])))
        ≡ some (false, codes "hostname leaf-01" ∷ []))
unfolding Vlan.create lab_step itoa
failed_creates = (refl, refl)

vlan_transactions_example :
    Submitted lab lab_device
      (session_name config web)
      (build_vlan_cmds web false)
      (validate_vlan_id web.id)
      false
      (record { id = vlan_id web.id; output = web })
      (switch [])
      (Vlan.create lab std config web false (switch []))
    × Submitted lab lab_device
        (session_name config web)
        (build_vlan_cmds web false)
        (validate_vlan_id web.id)
        false
        web
        (switch [])
        (Vlan.update lab std config web false (switch []))
    × Applied lab lab_device
        (session_name config web)
        (build_vlan_cmds web true)
        (switch [])
        (Vlan.delete lab std config web (switch []))
vlan_transactions_example =
    vlan_transactions lab lab_device std config web false (switch []) prefix-NoSpace web-OneLine

validate_vlan_id_iff_example :
    (validate_vlan_id (pos 4094) ≡ ok tt) ↔ ((pos 1 ≤ℤ pos 4094) × (pos 4094 ≤ℤ pos 4094))
validate_vlan_id_iff_example = validate_vlan_id_iff (pos 4094)
