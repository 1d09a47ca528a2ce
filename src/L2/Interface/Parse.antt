-- ===== src/L2/Interface/Parse.antt =====
-- internal/resources/l2/interface.go: `parseInterfaceConfig`, `fillState` and `Read`.
use pulumi_eos.Base.{
  Bool, true, false, List, [], ◌∷◌, ◌++◌, Option, none, some, if◌then◌else◌, ℤ, pos, ltb_ℤ,
}
use pulumi_eos.Text.{Str, codes, str_eq, cut_prefix, contains, split, trim_space, fields}
use pulumi_eos.Json
use pulumi_eos.Json.{as_string}
use pulumi_eos.Exec.{Exec, pure, ◌>>=◌}
use pulumi_eos.Goeapi.{Goeapi}
use pulumi_eos.Std.{Std}
use pulumi_eos.Eapi
use pulumi_eos.Config.{Config}
use pulumi_eos.Resource.{ReadResponse, new_client}
use pulumi_eos.L2.Switchport.{
  SwitchportRow, empty_row, parse_switchport_line, fill_switchport, atoi_or, text_or, positive_or,
}
use pulumi_eos.L2.Interface.{InterfaceArgs, interface_id}

pub record InterfaceRow : Type 0 where
  pub description : Str
  pub mtu : ℤ
  pub shutdown : Bool
  pub switchport : SwitchportRow
  pub channel_group_id : ℤ
  pub channel_group_mode : Str

abbrev pub empty_interface_row : InterfaceRow
empty_interface_row = record {
  description = [];
  mtu = pos 0;
  shutdown = false;
  switchport = empty_row;
  channel_group_id = pos 0;
  channel_group_mode = [];
}

-- `channel-group <id> mode <m>`: four words, the third of them `mode`.
abbrev pub channel_group_words : List Str → InterfaceRow → InterfaceRow
channel_group_words (w ∷ id ∷ key ∷ m ∷ []) row =
    if str_eq key (codes "mode")
    then record row { channel_group_id = atoi_or row.channel_group_id id; channel_group_mode = m }
    else row
channel_group_words _ row = row

unfoldable pub parse_channel_group : Str → InterfaceRow → InterfaceRow
unfolding fields str_eq
parse_channel_group line row = channel_group_words (fields line) row

-- The `switch` behind the switchport directives.
unfoldable pub parse_own_line : Str → InterfaceRow → InterfaceRow
unfolding cut_prefix str_eq parse_channel_group
parse_own_line line row = elim (cut_prefix line (codes "description ")) [
  | some v ↦ record row { description = v }
  | none ↦ elim (cut_prefix line (codes "mtu ")) [
    | some v ↦ record row { mtu = atoi_or row.mtu v }
    | none ↦
        if str_eq line (codes "shutdown")
        then record row { shutdown = true }
        else elim (cut_prefix line (codes "channel-group ")) [
          | some _ ↦ parse_channel_group line row
          | none ↦ row
        ]
  ]
]

-- One round of the loop, on a trimmed line.
unfoldable pub parse_line : Str → InterfaceRow → InterfaceRow
unfolding parse_switchport_line parse_own_line
parse_line line row =
    let (sp, consumed) = parse_switchport_line line row.switchport in
    if consumed then record row { switchport = sp } else parse_own_line line row

unfoldable pub parse_lines : List Str → InterfaceRow → InterfaceRow
unfolding trim_space parse_line
parse_lines [] row = row
parse_lines (raw ∷ rest) row = parse_lines rest (parse_line (trim_space raw) row)

unfoldable pub parse_interface_config : Str → Str → Option InterfaceRow
unfolding contains split parse_lines
parse_interface_config out name =
    if contains out (codes "interface " ++ name)
    then some (parse_lines (split out b'\n') empty_interface_row)
    else none

unfoldable pub fill_state : InterfaceRow → InterfaceArgs → InterfaceArgs
unfolding fill_switchport
fill_state r a =
    let sp = fill_switchport r.switchport (record {
      mode = none;
      access_vlan = none;
      trunk_allowed_vlans = none;
      trunk_native_vlan = none;
    }) in
    record a {
      description = text_or a.description r.description;
      mtu = positive_or a.mtu r.mtu;
      shutdown = if r.shutdown then some true else a.shutdown;
      switchport_mode = sp.mode;
      access_vlan = sp.access_vlan;
      trunk_allowed_vlans = sp.trunk_allowed_vlans;
      trunk_native_vlan = sp.trunk_native_vlan;
      channel_group =
          if ltb_ℤ (pos 0) r.channel_group_id
          then some (record { id = r.channel_group_id; mode = r.channel_group_mode })
          else a.channel_group;
    }

-- `out, _ := resp[0]["output"].(string)` and the tests behind it.
abbrev pub output_row : List Json.Fields → Str → Option InterfaceRow
output_row [] name = none
output_row (row ∷ _) name = elim (as_string (Json.get row (codes "output"))) [
  | none ↦ none
  | some out ↦ if str_eq out [] then none else parse_interface_config out name
]

module _ (g : Goeapi) where
  open g use {World}

  unfoldable pub read_interface : Option (Eapi.Client g) → Str → Exec World (Option InterfaceRow)
  unfolding Eapi.run_cmds Json.get str_eq parse_interface_config
  read_interface c name = do
    resp ← Eapi.run_cmds g c ((codes "show running-config interfaces " ++ name) ∷ []) (codes "text")
    pure (output_row resp name)

  module _ (std : Std) (cfg : Config) where
    abbrev refreshed :
        InterfaceArgs → Option InterfaceRow → Option (ReadResponse InterfaceArgs InterfaceArgs)
    refreshed a none = none
    refreshed a (some row) =
        some (record { id = interface_id a.name; inputs = a; state = fill_state row a })

    unfoldable pub read :
        InterfaceArgs → Exec World (Option (ReadResponse InterfaceArgs InterfaceArgs))
    unfolding new_client read_interface interface_id fill_state
    read a = do
      c ← new_client g std cfg a.access
      row ← read_interface (some c) a.name
      pure (refreshed a row)
