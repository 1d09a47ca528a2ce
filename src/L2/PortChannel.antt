-- ===== src/L2/PortChannel.antt =====
-- internal/resources/l2/port_channel.go. The configuration's text is read in PortChannel/Parse.
pub mod Parse
pub mod Laws
use pulumi_eos.Base.{
  Bool, true, false, not, ◌&&◌, ◌||◌, List, [], ◌∷◌, ◌++◌, Option, none, some, if◌then◌else◌, ℤ,
  pos, ltb_ℤ,
}
use pulumi_eos.Text.{Str, codes, str_eq}
use pulumi_eos.Text.Decimal.{itoa}
use pulumi_eos.Errors.{
  GoError, sentinel, wrapped, text, number, Result, ok, err, ◌>>=◌, ◌>>◌, refuse_if,
}
use pulumi_eos.Goeapi.{Goeapi}
use pulumi_eos.Std.{Std}
use pulumi_eos.Config.{Config}
use pulumi_eos.Resource.{Access, CreateResponse, Op, apply_with, submit_with, delete_with}
use pulumi_eos.Commands.{text_cmd, positive_cmd}
use pulumi_eos.L2.Switchport.{SwitchportFields, validate_switchport, build_switchport_cmds}
use pulumi_eos.L2.Interface.{shutdown_cmd}

abbrev pub lacp_fallback_static : Str
lacp_fallback_static = codes "static"

abbrev pub lacp_fallback_individual : Str
lacp_fallback_individual = codes "individual"

abbrev pub port_channel_id_min : ℤ
port_channel_id_min = pos 1

abbrev pub port_channel_id_max : ℤ
port_channel_id_max = pos 2000

abbrev pub err_port_channel_id_range : GoError
err_port_channel_id_range = sentinel (codes "portChannel id must be 1..2000")

abbrev pub err_lacp_fallback_invalid : GoError
err_lacp_fallback_invalid = sentinel (codes "lacpFallback must be static or individual")

abbrev pub err_lacp_fallback_timeout_bad : GoError
err_lacp_fallback_timeout_bad = sentinel (codes "lacpFallbackTimeout must be greater than 0")

pub record PortChannelArgs : Type 0 where
  pub id : ℤ
  pub description : Option Str
  pub mtu : Option ℤ
  pub shutdown : Option Bool
  pub switchport_mode : Option Str
  pub access_vlan : Option ℤ
  pub trunk_allowed_vlans : Option Str
  pub trunk_native_vlan : Option ℤ
  pub lacp_fallback : Option Str
  pub lacp_fallback_timeout : Option ℤ
  pub access : Access

unfoldable pub switchport : PortChannelArgs → SwitchportFields
switchport a = record {
  mode = a.switchport_mode;
  access_vlan = a.access_vlan;
  trunk_allowed_vlans = a.trunk_allowed_vlans;
  trunk_native_vlan = a.trunk_native_vlan;
}

abbrev pub known_fallback : Str → Bool
known_fallback m = str_eq m [] || str_eq m lacp_fallback_static || str_eq m lacp_fallback_individual

abbrev pub check_fallback : Option Str → Result (Unit {0})
check_fallback none = ok tt
check_fallback (some m) =
    refuse_if (not (known_fallback m))
      (wrapped (codes "%w (got %q)") (text m ∷ []) err_lacp_fallback_invalid)

abbrev pub check_timeout : Option ℤ → Result (Unit {0})
check_timeout none = ok tt
check_timeout (some t) =
    refuse_if (not (ltb_ℤ (pos 0) t))
      (wrapped (codes "%w (got %d)") (number t ∷ []) err_lacp_fallback_timeout_bad)

unfoldable pub validate_port_channel : PortChannelArgs → Result (Unit {0})
unfolding str_eq switchport validate_switchport
validate_port_channel a = do
  refuse_if (ltb_ℤ a.id port_channel_id_min || ltb_ℤ port_channel_id_max a.id)
      (wrapped (codes "%w (got %d)") (number a.id ∷ []) err_port_channel_id_range)
  validate_switchport (switchport a)
  check_fallback a.lacp_fallback
  check_timeout a.lacp_fallback_timeout

unfoldable pub port_channel_id : ℤ → Str
port_channel_id id = codes "port-channel/" ++ itoa id

abbrev pub port_channel_name : ℤ → Str
port_channel_name id = codes "Port-Channel" ++ itoa id

unfoldable pub build_port_channel_cmds : PortChannelArgs → Bool → List Str
unfolding str_eq switchport build_switchport_cmds
build_port_channel_cmds a remove =
    if remove
    then (codes "no interface " ++ port_channel_name a.id) ∷ []
    else (codes "interface " ++ port_channel_name a.id)
      ∷ (text_cmd (codes "description ") a.description
          ++ (positive_cmd (codes "mtu ") a.mtu
              ++ (build_switchport_cmds (switchport a)
                  ++ (text_cmd (codes "port-channel lacp fallback ") a.lacp_fallback
                      ++ (positive_cmd (codes "port-channel lacp fallback timeout ")
                            a.lacp_fallback_timeout
                          ++ shutdown_cmd a.shutdown)))))

module _ (g : Goeapi) (std : Std) (cfg : Config) where
  unfoldable pub apply_port_channel : PortChannelArgs → Bool → Op g (Unit {0})
  unfolding apply_with build_port_channel_cmds
  apply_port_channel a remove =
      apply_with g std cfg a.access (codes "po-" ++ itoa a.id) (build_port_channel_cmds a remove)

  unfoldable pub create : PortChannelArgs → Bool → Op g (CreateResponse PortChannelArgs)
  unfolding submit_with validate_port_channel port_channel_id apply_port_channel
  create a dry_run =
      submit_with g (validate_port_channel a) dry_run
        (record { id = port_channel_id a.id; output = a }) (codes "create port-channel %d: %w")
        (number a.id ∷ []) (apply_port_channel a false)

  unfoldable pub update : PortChannelArgs → Bool → Op g PortChannelArgs
  unfolding submit_with validate_port_channel apply_port_channel
  update a dry_run =
      submit_with g (validate_port_channel a) dry_run a (codes "update port-channel %d: %w")
        (number a.id ∷ []) (apply_port_channel a false)

  unfoldable pub delete : PortChannelArgs → Op g (Unit {0})
  unfolding delete_with apply_port_channel
  delete a =
      delete_with g (codes "delete port-channel %d: %w") (number a.id ∷ [])
        (apply_port_channel a true)
