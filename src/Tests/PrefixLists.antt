-- ===== src/Tests/PrefixLists.antt =====
-- A prefix list on the switch of the tests.
use pulumi_eos.Base.{
  map, true, false, [], ◌∷◌, ◌++◌, none, some, ◌≡◌, ◌≢◌, ◌↔◌, inr, refl, pos, All, arith, List,
}
use mathlib.Core.List.{Permᴰ}
use pulumi_eos.Text.{Str, codes, str_eq, is_space, trim_space, trim_right, cut_prefix, join}
use pulumi_eos.Text.Decimal.{itoa}
use pulumi_eos.Errors.Laws.{Passes}
use pulumi_eos.Eapi.Lab.{lab, lab_device, lab_step}
use pulumi_eos.Eapi.Device.{has_newline}
use pulumi_eos.Eapi.Staying.{OneLine, is_keyword, is_keyword-IsWord}
use pulumi_eos.Resource.Laws.{Applied, Submitted}
use pulumi_eos.L2.Interface.Staying.{NameRune}
use pulumi_eos.L3.PrefixList
use pulumi_eos.L3.PrefixList.{
  PrefixListEntry, PrefixListArgs, validate_prefix_list, build_prefix_list_cmds, prefix_list_id,
  sort_by_seq, remark_cmd, prefix_list_entry_cmd,
}
use pulumi_eos.L3.PrefixList.Parse.{parse_prefix_list_lines}
use pulumi_eos.L3.PrefixList.Laws.{IsEntry, Distinct, validate_prefix_list_iff}
use pulumi_eos.L3.PrefixList.Order.{Ascending, build_prefix_list_cmds-Ascending}
use pulumi_eos.L3.PrefixList.Echo.{IsPrintable}
use pulumi_eos.L3.PrefixList.Lines.{IsRemark, remark_of}
use pulumi_eos.L3.PrefixList.Walk.{Foreign}
use pulumi_eos.L3.PrefixList.Shown.{behind_first, parse-build_prefix_list_cmds}
use pulumi_eos.L3.PrefixList.Transactions.{IsSendable, session_name, prefix_list_transactions}
use pulumi_eos.Tests.{std, config, no_access, switch, seen}
use pulumi_eos.Tests.Vlans.{prefix-NoSpace}

abbrev loopbacks : PrefixListArgs
loopbacks = record {
  name = codes "LOOPS";
  remark = some (codes "all loopbacks");
  entries =
      record {
        seq = pos 20;
        action = codes "deny";
        prefix = codes "0.0.0.0/0";
        eq = none;
        ge = none;
        le = some (pos 32);
      }
      ∷ record {
        seq = pos 10;
        action = codes "permit";
        prefix = codes "10.0.0.0/8";
        eq = some (pos 32);
        ge = none;
        le = none;
      }
      ∷ [];
  access = no_access;
}

create-loopbacks :
    seen (PrefixList.create lab std config loopbacks false (switch []))
    ≡ some (
      true,
      codes "hostname leaf-01"
          ∷ codes "no ip prefix-list LOOPS"
          ∷ codes "ip prefix-list LOOPS remark all loopbacks"
          ∷ codes "ip prefix-list LOOPS seq 10 permit 10.0.0.0/8 eq 32"
          ∷ codes "ip prefix-list LOOPS seq 20 deny 0.0.0.0/0 le 32"
          ∷ [],
    )
unfolding PrefixList.create lab_step itoa
create-loopbacks = refl

loopbacks-IsPrintable : All IsPrintable loopbacks.entries
unfolding str_eq is_keyword
loopbacks-IsPrintable = (
  (refl, (is_keyword-IsWord (codes "0.0.0.0/0") refl).0, omega arith, tt, tt, omega arith, refl),
  (
    (refl, (is_keyword-IsWord (codes "10.0.0.0/8") refl).0, omega arith, omega arith, tt, tt, refl),
    tt,
  ),
)

loopbacks-OneLine : OneLine loopbacks.name
unfolding has_newline
loopbacks-OneLine = refl

loopbacks-NameRune : All NameRune loopbacks.name
unfolding is_space
loopbacks-NameRune = (inr refl, (inr refl, (inr refl, (inr refl, (inr refl, tt)))))

loopbacks-IsSendable : IsSendable loopbacks
unfolding has_newline
loopbacks-IsSendable = (refl, refl, loopbacks-IsPrintable)

loopbacks-IsRemark : IsRemark loopbacks.remark
unfolding has_newline trim_right is_space
loopbacks-IsRemark = (refl, refl)

entries-ne-nil : loopbacks.entries ≢ []
entries-ne-nil e = cc

-- A line of another list, whose name begins alike.
abbrev other : List Str
other = codes "ip prefix-list LOOPS2 seq 10 permit 10.0.0.0/8" ∷ []

other-Foreign : All (Foreign loopbacks.name) other
unfolding trim_space is_space cut_prefix
other-Foreign = (refl, tt)

other-OneLine : All OneLine other
unfolding has_newline
other-OneLine = (refl, tt)

validate_prefix_list_iff_example : Passes (validate_prefix_list loopbacks) ↔ (
    (trim_space loopbacks.name ≢ [])
    × ((loopbacks.entries ≢ []) × (All IsEntry loopbacks.entries × Distinct loopbacks.entries)))
validate_prefix_list_iff_example = validate_prefix_list_iff loopbacks

build_prefix_list_cmds-Ascending_example :
    (es : List PrefixListEntry) × (Ascending es
      × (Permᴰ loopbacks.entries es
          × (build_prefix_list_cmds loopbacks false
              ≡ (codes "no ip prefix-list " ++ loopbacks.name)
                ∷ (remark_cmd loopbacks.name loopbacks.remark
                    ++ map (prefix_list_entry_cmd loopbacks.name) es))))
build_prefix_list_cmds-Ascending_example = build_prefix_list_cmds-Ascending loopbacks

parse-build_prefix_list_cmds_example :
    parse_prefix_list_lines
      (join (other ++ (behind_first (build_prefix_list_cmds loopbacks false) ++ [])) (codes "\n"))
      loopbacks.name
    ≡ some (record {
      name = loopbacks.name;
      remark = remark_of loopbacks.remark;
      entries = sort_by_seq loopbacks.entries;
    })
parse-build_prefix_list_cmds_example =
    parse-build_prefix_list_cmds other [] loopbacks loopbacks-OneLine other-OneLine tt other-Foreign
      tt loopbacks-IsRemark loopbacks-IsPrintable entries-ne-nil

prefix_list_transactions_example :
    Submitted lab lab_device
      (session_name config loopbacks)
      (build_prefix_list_cmds loopbacks false)
      (validate_prefix_list loopbacks)
      false
      (record { id = prefix_list_id loopbacks.name; output = loopbacks })
      (switch [])
      (PrefixList.create lab std config loopbacks false (switch []))
    × Submitted lab lab_device
        (session_name config loopbacks)
        (build_prefix_list_cmds loopbacks false)
        (validate_prefix_list loopbacks)
        false
        loopbacks
        (switch [])
        (PrefixList.update lab std config loopbacks false (switch []))
    × Applied lab lab_device
        (session_name config loopbacks)
        (build_prefix_list_cmds loopbacks true)
        (switch [])
        (PrefixList.delete lab std config loopbacks (switch []))
prefix_list_transactions_example =
    prefix_list_transactions lab lab_device std config loopbacks false (switch []) prefix-NoSpace
      loopbacks-NameRune loopbacks-IsSendable
