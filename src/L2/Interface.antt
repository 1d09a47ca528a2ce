-- ===== src/L2/Interface.antt =====
-- internal/resources/l2/interface.go. The configuration's text is read in Interface/Parse.
pub mod Parse
pub mod Lines
pub mod Staying
pub mod Echo
pub mod Block
pub mod RoundTrip
pub mod Laws
use pulumi_eos.Base.{
  Bool, true, false, not, ◌&&◌, ◌||◌, ℕ, ◌==◌, List, [], ◌∷◌, ◌++◌, map, Option, none, some,
  if◌then◌else◌, ℤ, pos, ltb_ℤ,
}
use pulumi_eos.Text.{Str, codes, str_eq, trim_space}
use pulumi_eos.Text.Decimal.{itoa}
use pulumi_eos.Errors.{
  GoError, sentinel, wrapped, formatted, text, number, Result, ok, err, ◌>>=◌, ◌>>◌, refuse_if,
}
use pulumi_eos.Goeapi.{Goeapi}
use pulumi_eos.Std.{Std}
use pulumi_eos.Config.{Config}
use pulumi_eos.Resource.{Access, CreateResponse, Op, apply_with, submit_with, delete_with}
use pulumi_eos.Commands.{text_cmd, positive_cmd}
use pulumi_eos.L2.Switchport.{SwitchportFields, validate_switchport, build_switchport_cmds}

abbrev pub mode_active : Str
mode_active = codes "active"

abbrev pub mode_passive : Str
mode_passive = codes "passive"

abbrev pub mode_on : Str
mode_on = codes "on"

abbrev pub err_interface_name_required : GoError
err_interface_name_required = sentinel (codes "interface name is required")

abbrev pub err_interface_cg_mode_invalid : GoError
err_interface_cg_mode_invalid = sentinel (codes "channelGroup.mode must be active, passive, or on")

pub record ChannelGroup : Type 0 where
  pub id : ℤ
  pub mode : Str

pub record InterfaceArgs : Type 0 where
  pub name : Str
  pub description : Option Str
  pub mtu : Option ℤ
  pub shutdown : Option Bool
  pub switchport_mode : Option Str
  pub access_vlan : Option ℤ
  pub trunk_allowed_vlans : Option Str
  pub trunk_native_vlan : Option ℤ
  pub channel_group : Option ChannelGroup
  pub access : Access

unfoldable pub switchport : InterfaceArgs → SwitchportFields
switchport a = record {
  mode = a.switchport_mode;
  access_vlan = a.access_vlan;
  trunk_allowed_vlans = a.trunk_allowed_vlans;
  trunk_native_vlan = a.trunk_native_vlan;
}

abbrev pub known_cg_mode : Str → Bool
known_cg_mode m = str_eq m mode_active || str_eq m mode_passive || str_eq m mode_on

unfoldable pub validate_channel_group : Option ChannelGroup → Result (Unit {0})
unfolding str_eq
validate_channel_group none = ok tt
validate_channel_group (some cg) = do
  refuse_if (not (known_cg_mode cg.mode))
      (wrapped (codes "%w (got %q)") (text cg.mode ∷ []) err_interface_cg_mode_invalid)
  refuse_if (ltb_ℤ cg.id (pos 1) || ltb_ℤ (pos 2000) cg.id)
      (formatted (codes "channelGroup.id must be 1..2000 (got %d)") (number cg.id ∷ []))

unfoldable pub validate_interface : InterfaceArgs → Result (Unit {0})
unfolding trim_space str_eq switchport validate_switchport validate_channel_group
validate_interface a = do
  refuse_if (str_eq (trim_space a.name) []) err_interface_name_required
  validate_switchport (switchport a)
  validate_channel_group a.channel_group

unfoldable pub interface_id : Str → Str
interface_id name = codes "interface/" ++ name

abbrev pub channel_group_cmd : Option ChannelGroup → List Str
channel_group_cmd none = []
channel_group_cmd (some cg) =
    (codes "channel-group " ++ (itoa cg.id ++ (codes " mode " ++ cg.mode))) ∷ []

abbrev pub shutdown_cmd : Option Bool → List Str
shutdown_cmd none = []
shutdown_cmd (some true) = codes "shutdown" ∷ []
shutdown_cmd (some false) = codes "no shutdown" ∷ []

unfoldable pub build_interface_cmds : InterfaceArgs → Bool → List Str
unfolding str_eq switchport build_switchport_cmds
build_interface_cmds a reset =
    if reset
    then (codes "default interface " ++ a.name) ∷ []
    else (codes "interface " ++ a.name)
      ∷ (text_cmd (codes "description ") a.description
          ++ (positive_cmd (codes "mtu ") a.mtu
              ++ (build_switchport_cmds (switchport a)
                  ++ (channel_group_cmd a.channel_group ++ shutdown_cmd a.shutdown))))

-- strings.NewReplacer of single runes: each `/`, blank and `:` becomes a hyphen.
abbrev replaced : ℕ → ℕ
replaced c = if c == b'/' || c == b' ' || c == b':' then b'-' else c

unfoldable pub sanitize_for_session : Str → Str
sanitize_for_session = map replaced

module _ (g : Goeapi) (std : Std) (cfg : Config) where
  unfoldable pub apply_interface : InterfaceArgs → Bool → Op g (Unit {0})
  unfolding apply_with build_interface_cmds sanitize_for_session
  apply_interface a reset =
      apply_with g std cfg a.access (codes "iface-" ++ sanitize_for_session a.name)
        (build_interface_cmds a reset)

  unfoldable pub create : InterfaceArgs → Bool → Op g (CreateResponse InterfaceArgs)
  unfolding submit_with validate_interface interface_id apply_interface
  create a dry_run =
      submit_with g (validate_interface a) dry_run (record { id = interface_id a.name; output = a })
        (codes "create interface %s: %w") (text a.name ∷ []) (apply_interface a false)

  unfoldable pub update : InterfaceArgs → Bool → Op g InterfaceArgs
  unfolding submit_with validate_interface apply_interface
  update a dry_run =
      submit_with g (validate_interface a) dry_run a (codes "update interface %s: %w")
        (text a.name ∷ []) (apply_interface a false)

  unfoldable pub delete : InterfaceArgs → Op g (Unit {0})
  unfolding delete_with apply_interface
  delete a =
      delete_with g (codes "delete (default) interface %s: %w") (text a.name ∷ [])
        (apply_interface a true)
