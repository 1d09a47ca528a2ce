-- ===== src/L3/Subinterface/Parse.antt =====
-- internal/resources/l3/subinterface.go: `parseSubinterfaceConfig`, `fillState`, and the operations.
use pulumi_eos.Base.{
  Bool, true, false, ◌||◌, List, [], ◌∷◌, ◌++◌, Option, none, some, if◌then◌else◌, ℤ, pos, ltb_ℤ,
  eqb_ℤ,
}
use pulumi_eos.Text.{Str, codes, str_eq, cut_prefix, contains, split, fields}
use pulumi_eos.Text.Decimal.{atoi}
use pulumi_eos.Errors.{text, ok}
use pulumi_eos.Resource.Kind.{Kind, Reader}
use pulumi_eos.L2.Switchport.{atoi_or, text_or, positive_or}
use pulumi_eos.L3.Listing.{over_lines}
use pulumi_eos.L3.Subinterface.{
  SubinterfaceBfd, SubinterfaceArgs, validate_subinterface, subinterface_id, subinterface_tag,
  build_subinterface_cmds,
}

pub record SubinterfaceRow : Type 0 where
  pub encapsulation_vlan : ℤ
  pub description : Str
  pub vrf : Str
  pub ip_address : Str
  pub ipv6_address : Str
  pub mtu : ℤ
  pub shutdown : Bool
  pub bfd : Option SubinterfaceBfd

-- `switch tokens[i]`, with the word behind it.
abbrev pub set_timer : Str → Str → SubinterfaceBfd → SubinterfaceBfd
set_timer key v b =
    if str_eq key (codes "interval")
    then record b { interval = atoi_or b.interval v }
    else if str_eq key (codes "min-rx")
    then record b { min_rx = atoi_or b.min_rx v }
    else if str_eq key (codes "multiplier")
    then record b { multiplier = atoi_or b.multiplier v }
    else b

-- The loop over every word but the last.
unfoldable pub sub_timers : List Str → SubinterfaceBfd → SubinterfaceBfd
unfolding str_eq atoi
sub_timers [] b = b
sub_timers (key ∷ rest) b = elim rest [ [] ↦ b | ◌∷◌ v more ↦ sub_timers rest (set_timer key v b) ]

abbrev pub all_timers : SubinterfaceBfd → Option SubinterfaceBfd
all_timers b =
    if eqb_ℤ b.interval (pos 0) || eqb_ℤ b.min_rx (pos 0) || eqb_ℤ b.multiplier (pos 0)
    then none
    else some b

unfoldable pub parse_sub_bfd_line : Str → Option SubinterfaceBfd
unfolding fields sub_timers
parse_sub_bfd_line line =
    all_timers
      (sub_timers (fields line) (record { interval = pos 0; min_rx = pos 0; multiplier = pos 0 }))

-- The last cases of the `switch`.
unfoldable pub parse_state_line : Str → SubinterfaceRow → SubinterfaceRow
unfolding cut_prefix str_eq parse_sub_bfd_line
parse_state_line line row =
    if str_eq line (codes "shutdown")
    then record row { shutdown = true }
    else elim (cut_prefix line (codes "bfd interval ")) [
      | some v ↦ record row { bfd = parse_sub_bfd_line line }
      | none ↦ row
    ]

-- The cases of the addresses and the MTU, behind the first three.
unfoldable pub parse_address_line : Str → SubinterfaceRow → SubinterfaceRow
unfolding cut_prefix atoi parse_state_line
parse_address_line line row = elim (cut_prefix line (codes "ipv6 address ")) [
  | some v ↦ record row { ipv6_address = v }
  | none ↦ elim (cut_prefix line (codes "ip address ")) [
    | some v ↦ record row { ip_address = v }
    | none ↦ elim (cut_prefix line (codes "mtu ")) [
      | some v ↦ record row { mtu = atoi_or row.mtu v }
      | none ↦ parse_state_line line row
    ]
  ]
]

-- The `switch` of the loop, on a trimmed line.
unfoldable pub parse_subinterface_line : Str → SubinterfaceRow → SubinterfaceRow
unfolding cut_prefix atoi parse_address_line
parse_subinterface_line line row = elim (cut_prefix line (codes "encapsulation dot1q vlan ")) [
  | some v ↦ record row { encapsulation_vlan = atoi_or row.encapsulation_vlan v }
  | none ↦ elim (cut_prefix line (codes "description ")) [
    | some v ↦ record row { description = v }
    | none ↦ elim (cut_prefix line (codes "vrf ")) [
      | some v ↦ record row { vrf = v }
      | none ↦ parse_address_line line row
    ]
  ]
]

abbrev pub no_row : SubinterfaceRow
no_row = record {
  encapsulation_vlan = pos 0;
  description = [];
  vrf = [];
  ip_address = [];
  ipv6_address = [];
  mtu = pos 0;
  shutdown = false;
  bfd = none;
}

-- A text without the header gives the empty row.
unfoldable pub parse_subinterface_config : Str → Str → SubinterfaceRow
unfolding contains split over_lines parse_subinterface_line
parse_subinterface_config out name =
    if contains out (codes "interface " ++ name)
    then over_lines parse_subinterface_line (split out b'\n') no_row
    else no_row

-- `readSubinterface` behind the call: any output is a row.
unfoldable pub subinterface_row : SubinterfaceArgs → Str → Option SubinterfaceRow
unfolding str_eq parse_subinterface_config
subinterface_row a out = if str_eq out [] then none else some (parse_subinterface_config out a.name)

abbrev pub bfd_or : Option SubinterfaceBfd → Option SubinterfaceBfd → Option SubinterfaceBfd
bfd_or old none = old
bfd_or old (some b) = some b

unfoldable pub fill_state : SubinterfaceRow → SubinterfaceArgs → SubinterfaceArgs
unfolding str_eq
fill_state r a = record a {
  encapsulation_vlan =
      if ltb_ℤ (pos 0) r.encapsulation_vlan then r.encapsulation_vlan else a.encapsulation_vlan;
  description = text_or a.description r.description;
  vrf = text_or a.vrf r.vrf;
  ip_address = text_or a.ip_address r.ip_address;
  ipv6_address = text_or a.ipv6_address r.ipv6_address;
  mtu = positive_or a.mtu r.mtu;
  shutdown = if r.shutdown then some true else a.shutdown;
  bfd = bfd_or a.bfd r.bfd;
}

-- Create, Update and Delete, and Read.
unfoldable pub subinterface : Kind SubinterfaceArgs
unfolding validate_subinterface subinterface_id subinterface_tag build_subinterface_cmds
subinterface = record {
  validate = validate_subinterface;
  id = λ a. subinterface_id a.name;
  tag = λ a. subinterface_tag a.name;
  commands = build_subinterface_cmds;
  prepare = λ a. ok tt;
  access = λ a. a.access;
  label = codes "subinterface %s";
  operands = λ a. text a.name ∷ [];
}

unfoldable pub subinterface_reader : Reader SubinterfaceArgs SubinterfaceRow
unfolding subinterface_row fill_state
subinterface_reader = record {
  show = λ a. codes "show running-config interfaces " ++ a.name;
  parse = subinterface_row;
  missing = none;
  fill = fill_state;
}
