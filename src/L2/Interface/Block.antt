-- ===== src/L2/Interface/Block.antt =====
-- `parseInterfaceConfig` reads the block that the configuration shows of an interface.
use pulumi_eos.Base.{
  Bool, true, false, ◌||◌, List, [], ◌∷◌, ◌++◌, map, some, ◌≡◌, ◌≢◌, refl, ap, ◌∙◌, arith, pos, All,
  append-nil,
}
use mathlib.Core.Path.{subst}
use mathlib.Core.List.{map-append}
use pulumi_eos.Text.{Str, codes, join, contains, trim_space, trim_right, is_space}
use pulumi_eos.Text.Decimal.{IsInt}
use pulumi_eos.Text.Laws.{contains-append, trim_right-end, trim_space-visible}
use pulumi_eos.Text.Split.{IsWord, split-join}
use pulumi_eos.Eapi.Device.{Stays, has_newline, leaves_session}
use pulumi_eos.Eapi.Staying.{All-Lacks, OneLine, OneLine-append}
use pulumi_eos.Commands.{text_cmd, positive_cmd, number_cmd}
use pulumi_eos.L2.Switchport.{
  SwitchportRow, SwitchportFields, build_switchport_cmds, mode_cmds, taken_or,
}
use pulumi_eos.L2.Switchport.Laws.{IfSet}
use pulumi_eos.L2.Interface.{InterfaceArgs, switchport, channel_group_cmd, build_interface_cmds}
use pulumi_eos.L2.Interface.Staying.{OneLiners, build_interface_cmds-Stays}
use pulumi_eos.L2.Interface.Parse.{
  InterfaceRow, empty_interface_row, parse_line, parse_lines, parse_interface_config,
}
use pulumi_eos.L2.Interface.Lines.{indent, line-interface, parse_lines-append}
use pulumi_eos.L2.Interface.Echo.{
  HasEnd, given, positive_of, mode_row, group_row, shutdown_row, echo-description, echo-mtu,
  echo-mode, echo-access, echo-allowed, echo-native, echo-group, echo-shutdown,
}

-- The row of a switchport block.
abbrev pub switchport_row : SwitchportFields → SwitchportRow → SwitchportRow
switchport_row s r =
    let m = mode_row s.mode r in
    record m {
      access_vlan = taken_or m.access_vlan s.access_vlan;
      trunk_allowed_vlans = given m.trunk_allowed_vlans s.trunk_allowed_vlans;
      trunk_native_vlan = taken_or m.trunk_native_vlan s.trunk_native_vlan;
    }

-- Texts without blanks at their ends, and numbers of Go's `int`.
abbrev pub IsPrintable : InterfaceArgs → Type 0
IsPrintable a =
    HasEnd a.description
    × IfSet IsInt a.mtu
    × IfSet IsInt a.access_vlan
    × HasEnd a.trunk_allowed_vlans
    × IfSet IsInt a.trunk_native_vlan
    × IfSet (λ cg. IsInt cg.id × IsWord cg.mode) a.channel_group

map-append-lines :
    (a b : List Str) (row : InterfaceRow)
    → parse_lines (map indent (a ++ b)) row
      ≡ parse_lines (map indent b) (parse_lines (map indent a) row)
map-append-lines a b row =
    ap (λ l. parse_lines l row) (map-append indent a b)
    ∙ parse_lines-append (map indent a) (map indent b) row

echo-switchport :
    (s : SwitchportFields) (row : InterfaceRow)
    → IfSet IsInt s.access_vlan
    → HasEnd s.trunk_allowed_vlans
    → IfSet IsInt s.trunk_native_vlan
    → parse_lines (map indent (build_switchport_cmds s)) row
      ≡ record row { switchport = switchport_row s row.switchport }
unfolding build_switchport_cmds
echo-switchport s row ha ht hn =
    map-append-lines (mode_cmds s.mode) _ row
    ∙ ap (parse_lines _) (echo-mode row s.mode)
    ∙ map-append-lines (number_cmd (codes "switchport access vlan ") s.access_vlan) _ _
    ∙ ap (parse_lines _) (echo-access _ s.access_vlan ha)
    ∙ map-append-lines (text_cmd (codes "switchport trunk allowed vlan ") s.trunk_allowed_vlans) _ _
    ∙ ap (parse_lines _) (echo-allowed _ s.trunk_allowed_vlans ht)
    ∙ echo-native _ s.trunk_native_vlan hn

abbrev pub behind_first : List Str → List Str
behind_first [] = []
behind_first (l ∷ ls) = ls

-- The block of an interface as the configuration shows it: its commands, all but the first indented.
abbrev pub block : InterfaceArgs → List Str
block a = (codes "interface " ++ a.name) ∷ map indent (behind_first (build_interface_cmds a false))

-- What the block of `a` leaves in the row.
abbrev pub row_of : InterfaceArgs → InterfaceRow
row_of a = shutdown_row a.shutdown (
    group_row a.channel_group (record empty_interface_row {
      description = given [] a.description;
      mtu = positive_of (pos 0) a.mtu;
      switchport = switchport_row (switchport a) empty_interface_row.switchport;
    }))

echo-body :
    (a : InterfaceArgs)
    → IsPrintable a
    → parse_lines (map indent (behind_first (build_interface_cmds a false))) empty_interface_row
      ≡ row_of a
unfolding build_interface_cmds switchport
echo-body a (hd, hm, ha, ht, hn, hg) =
    map-append-lines (text_cmd (codes "description ") a.description) _ _
    ∙ ap (parse_lines _) (echo-description _ a.description hd)
    ∙ map-append-lines (positive_cmd (codes "mtu ") a.mtu) _ _
    ∙ ap (parse_lines _) (echo-mtu _ a.mtu hm)
    ∙ map-append-lines (build_switchport_cmds (switchport a)) _ _
    ∙ ap (parse_lines _) (echo-switchport (switchport a) _ ha ht hn)
    ∙ map-append-lines (channel_group_cmd a.channel_group) _ _
    ∙ ap (parse_lines _) (echo-group _ a.channel_group hg)
    ∙ echo-shutdown _ a.shutdown

echo-first :
    (n : Str) (row : InterfaceRow)
    → n ≢ []
    → trim_right n ≡ n
    → parse_line (trim_space (codes "interface " ++ n)) row ≡ row
unfolding is_space
echo-first n row ne h =
    ap (λ l. parse_line l row)
      (trim_space-visible b'i' _ refl (trim_right-end (codes "interface ") n ne h))
    ∙ line-interface row n

echo-block :
    (a : InterfaceArgs)
    → a.name ≢ []
    → trim_right a.name ≡ a.name
    → IsPrintable a
    → parse_lines (block a) empty_interface_row ≡ row_of a
unfolding parse_lines
echo-block a ne h p =
    ap (parse_lines (map indent (behind_first (build_interface_cmds a false))))
      (echo-first a.name empty_interface_row ne h)
    ∙ echo-body a p

contains-first : (l : Str) (ls : List Str) → contains (join (l ∷ ls) (codes "\n")) l ≡ true
unfolding join
contains-first l [] = subst (λ s. contains s l ≡ true) (append-nil l) (contains-append [] l [])
contains-first l (m ∷ ls) = contains-append [] l _

stays_line : (a b : Bool) → (a || b) ≡ false → a ≡ false
stays_line a b h = ground arith

Stays-OneLine : (l : Str) → Stays l → OneLine l
unfolding leaves_session
Stays-OneLine l h = stays_line (has_newline l) _ h

indent-OneLine : (ls : List Str) → All Stays ls → All OneLine (map indent ls)
unfolding has_newline
indent-OneLine [] h = tt
indent-OneLine (l ∷ ls) (h, hs) =
    (OneLine-append (codes "   ") l refl (Stays-OneLine l h), indent-OneLine ls hs)

block-OneLine : (a : InterfaceArgs) → OneLiners a → All OneLine (block a)
unfolding build_interface_cmds
block-OneLine a h =
    let (first, rest) = build_interface_cmds-Stays a false h in
    (Stays-OneLine (codes "interface " ++ a.name) first, indent-OneLine _ rest)

-- `parseInterfaceConfig` reads the block of an interface.
pub parse-block :
    (a : InterfaceArgs)
    → a.name ≢ []
    → trim_right a.name ≡ a.name
    → OneLiners a
    → IsPrintable a
    → parse_interface_config (join (block a) (codes "\n")) a.name ≡ some (row_of a)
unfolding parse_interface_config
parse-block a ne h one p =
    rw
      (contains-first (codes "interface " ++ a.name)
        (map indent (behind_first (build_interface_cmds a false))))
      (ap (λ ls. some (parse_lines ls empty_interface_row))
          (split-join (block a) b'\n' (λ e. cc) (All-Lacks (block a) (block-OneLine a one)))
        ∙ ap some (echo-block a ne h p))
