-- ===== src/L2/PortChannel/Parse.antt =====
-- internal/resources/l2/port_channel.go: `parsePortChannelConfig`, `fillState` and `Read`.
use pulumi_eos.Base.{
  Bool, true, false, List, [], ◌∷◌, ◌++◌, Option, none, some, if◌then◌else◌, ℤ, pos,
}
use pulumi_eos.Text.{Str, codes, str_eq, cut_prefix, contains, split, trim_space}
use pulumi_eos.Json
use pulumi_eos.Json.{as_string}
use pulumi_eos.Exec.{Exec, pure, ◌>>=◌}
use pulumi_eos.Goeapi.{Goeapi}
use pulumi_eos.Std.{Std}
use pulumi_eos.Eapi
use pulumi_eos.Config.{Config}
use pulumi_eos.Resource.{ReadResponse, new_client}
use pulumi_eos.L2.Switchport.{
  SwitchportRow, empty_row, parse_switchport_line, fill_switchport, atoi_or, text_or, positive_or,
}
use pulumi_eos.L2.PortChannel.{PortChannelArgs, port_channel_id, port_channel_name}

pub record PortChannelRow : Type 0 where
  pub description : Str
  pub mtu : ℤ
  pub shutdown : Bool
  pub switchport : SwitchportRow
  pub lacp_fallback : Str
  pub lacp_fallback_timeout : ℤ

abbrev pub empty_port_channel_row : PortChannelRow
empty_port_channel_row = record {
  description = [];
  mtu = pos 0;
  shutdown = false;
  switchport = empty_row;
  lacp_fallback = [];
  lacp_fallback_timeout = pos 0;
}

-- The last two cases of the `switch`: the longer prefix is asked first.
unfoldable pub parse_fallback_line : Str → PortChannelRow → PortChannelRow
unfolding cut_prefix
parse_fallback_line line row =
    elim (cut_prefix line (codes "port-channel lacp fallback timeout ")) [
      | some v ↦ record row { lacp_fallback_timeout = atoi_or row.lacp_fallback_timeout v }
      | none ↦ elim (cut_prefix line (codes "port-channel lacp fallback ")) [
        | some v ↦ record row { lacp_fallback = v }
        | none ↦ row
      ]
    ]

-- The `switch` behind the switchport directives.
unfoldable pub parse_channel_line : Str → PortChannelRow → PortChannelRow
unfolding cut_prefix str_eq parse_fallback_line
parse_channel_line line row = elim (cut_prefix line (codes "description ")) [
  | some v ↦ record row { description = v }
  | none ↦ elim (cut_prefix line (codes "mtu ")) [
    | some v ↦ record row { mtu = atoi_or row.mtu v }
    | none ↦
        if str_eq line (codes "shutdown")
        then record row { shutdown = true }
        else parse_fallback_line line row
  ]
]

-- One round of the loop, on a trimmed line.
unfoldable pub parse_port_channel_line : Str → PortChannelRow → PortChannelRow
unfolding parse_switchport_line parse_channel_line
parse_port_channel_line line row =
    let (sp, consumed) = parse_switchport_line line row.switchport in
    if consumed then record row { switchport = sp } else parse_channel_line line row

unfoldable pub parse_port_channel_lines : List Str → PortChannelRow → PortChannelRow
unfolding trim_space parse_port_channel_line
parse_port_channel_lines [] row = row
parse_port_channel_lines (raw ∷ rest) row =
    parse_port_channel_lines rest (parse_port_channel_line (trim_space raw) row)

unfoldable pub parse_port_channel_config : Str → ℤ → Option PortChannelRow
unfolding contains split parse_port_channel_lines
parse_port_channel_config out id =
    if contains out (codes "interface " ++ port_channel_name id)
    then some (parse_port_channel_lines (split out b'\n') empty_port_channel_row)
    else none

unfoldable pub fill_state : PortChannelRow → PortChannelArgs → PortChannelArgs
unfolding fill_switchport
fill_state r a =
    let sp = fill_switchport r.switchport (record {
      mode = none;
      access_vlan = none;
      trunk_allowed_vlans = none;
      trunk_native_vlan = none;
    }) in
    record a {
      description = text_or a.description r.description;
      mtu = positive_or a.mtu r.mtu;
      shutdown = if r.shutdown then some true else a.shutdown;
      switchport_mode = sp.mode;
      access_vlan = sp.access_vlan;
      trunk_allowed_vlans = sp.trunk_allowed_vlans;
      trunk_native_vlan = sp.trunk_native_vlan;
      lacp_fallback = text_or a.lacp_fallback r.lacp_fallback;
      lacp_fallback_timeout = positive_or a.lacp_fallback_timeout r.lacp_fallback_timeout;
    }

-- `out, _ := resp[0]["output"].(string)` and the tests behind it.
abbrev pub output_row : List Json.Fields → ℤ → Option PortChannelRow
output_row [] id = none
output_row (row ∷ _) id = elim (as_string (Json.get row (codes "output"))) [
  | none ↦ none
  | some out ↦ if str_eq out [] then none else parse_port_channel_config out id
]

module _ (g : Goeapi) where
  open g use {World}

  unfoldable pub read_port_channel : Option (Eapi.Client g) → ℤ → Exec World (Option PortChannelRow)
  unfolding Eapi.run_cmds Json.get str_eq parse_port_channel_config
  read_port_channel c id = do
    resp ←
        Eapi.run_cmds g c ((codes "show running-config interfaces " ++ port_channel_name id) ∷ [])
          (codes "text")
    pure (output_row resp id)

  module _ (std : Std) (cfg : Config) where
    abbrev refreshed :
        PortChannelArgs
        → Option PortChannelRow
        → Option (ReadResponse PortChannelArgs PortChannelArgs)
    refreshed a none = none
    refreshed a (some row) =
        some (record { id = port_channel_id a.id; inputs = a; state = fill_state row a })

    unfoldable pub read :
        PortChannelArgs → Exec World (Option (ReadResponse PortChannelArgs PortChannelArgs))
    unfolding new_client read_port_channel port_channel_id fill_state
    read a = do
      c ← new_client g std cfg a.access
      row ← read_port_channel (some c) a.id
      pure (refreshed a row)
