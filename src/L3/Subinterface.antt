-- ===== src/L3/Subinterface.antt =====
-- internal/resources/l3/subinterface.go. The configuration's text is read in Subinterface/Parse.
pub mod Parse
pub mod Laws
use pulumi_eos.Base.{
  Bool, true, false, not, ◌&&◌, ◌||◌, ◌==◌, List, [], ◌∷◌, ◌++◌, map, Option, none, some,
  if◌then◌else◌, ℤ, pos, ltb_ℤ,
}
use pulumi_eos.Text.{Str, codes, str_eq, split, cut_prefix}
use pulumi_eos.Text.Decimal.{itoa}
use pulumi_eos.Text.Cut.{is_number}
use pulumi_eos.Text.Netip.{parse_prefix4}
use pulumi_eos.Text.Netip6.{is_prefix6}
use pulumi_eos.Errors.{
  GoError, sentinel, wrapped, text, number, Result, ok, err, ◌>>=◌, ◌>>◌, refuse_if,
}
use pulumi_eos.Resource.{Access}
use pulumi_eos.Commands.{set_text, text_cmd, positive_cmd, state_cmd}
use pulumi_eos.L3.Loopback.{check_address4, check_address6}

abbrev pub err_subinterface_name_invalid : GoError
err_subinterface_name_invalid =
    sentinel (codes "subinterface name must be Ethernet<N>[/<sub>...].<id> or Port-Channel<N>.<id>")

abbrev pub err_subinterface_vlan_out_of_range : GoError
err_subinterface_vlan_out_of_range = sentinel (codes "encapsulationVlan must be in 1..4094")

abbrev pub err_subinterface_bad_ipv4 : GoError
err_subinterface_bad_ipv4 = sentinel (codes "subinterface ipAddress must be a valid IPv4 CIDR")

abbrev pub err_subinterface_bad_ipv6 : GoError
err_subinterface_bad_ipv6 = sentinel (codes "subinterface ipv6Address must be a valid IPv6 CIDR")

abbrev pub err_subinterface_bfd_incomplete : GoError
err_subinterface_bfd_incomplete =
    sentinel (codes "subinterface bfd requires interval, minRx, and multiplier together")

abbrev pub err_subinterface_bfd_multiplier : GoError
err_subinterface_bfd_multiplier = sentinel (codes "subinterface bfd multiplier must be in 3..50")

abbrev pub err_subinterface_bfd_interval : GoError
err_subinterface_bfd_interval =
    sentinel (codes "subinterface bfd interval and minRx must be > 0 ms")

pub record SubinterfaceBfd : Type 0 where
  pub interval : ℤ
  pub min_rx : ℤ
  pub multiplier : ℤ

pub record SubinterfaceArgs : Type 0 where
  pub name : Str
  pub encapsulation_vlan : ℤ
  pub description : Option Str
  pub ip_address : Option Str
  pub ipv6_address : Option Str
  pub vrf : Option Str
  pub mtu : Option ℤ
  pub shutdown : Option Bool
  pub bfd : Option SubinterfaceBfd
  pub access : Access

abbrev all_numbers : List Str → Bool
all_numbers [] = true
all_numbers (n ∷ ns) = is_number n && all_numbers ns

-- `\d+(\/\d+)*\.\d+`, whole
abbrev numbered : List Str → Bool
numbered (path ∷ sub ∷ []) = all_numbers (split path b'/') && is_number sub
numbered _ = false

abbrev behind : Option Str → Bool
behind none = false
behind (some rest) = numbered (split rest b'.')

-- `subinterfaceNameRe.MatchString`
unfoldable pub matches_name : Str → Bool
unfolding cut_prefix split is_number
matches_name s =
    behind (cut_prefix s (codes "Ethernet")) || behind (cut_prefix s (codes "Port-Channel"))

abbrev pub check_bfd : Option SubinterfaceBfd → Result (Unit {0})
check_bfd none = ok tt
check_bfd (some b) = do
  refuse_if (not (ltb_ℤ (pos 0) b.interval) || not (ltb_ℤ (pos 0) b.min_rx)) (
      wrapped (codes "%w: got interval=%d minRx=%d") (number b.interval ∷ number b.min_rx ∷ [])
        err_subinterface_bfd_interval)
  refuse_if (ltb_ℤ b.multiplier (pos 3) || ltb_ℤ (pos 50) b.multiplier)
      (wrapped (codes "%w: got %d") (number b.multiplier ∷ []) err_subinterface_bfd_multiplier)

unfoldable pub validate_subinterface : SubinterfaceArgs → Result (Unit {0})
unfolding str_eq parse_prefix4 is_prefix6 matches_name
validate_subinterface a = do
  refuse_if (not (matches_name a.name))
      (wrapped (codes "%w: got %q") (text a.name ∷ []) err_subinterface_name_invalid)
  refuse_if (ltb_ℤ a.encapsulation_vlan (pos 1) || ltb_ℤ (pos 4094) a.encapsulation_vlan) (
      wrapped (codes "%w: got %d") (number a.encapsulation_vlan ∷ [])
        err_subinterface_vlan_out_of_range)
  check_address4 err_subinterface_bad_ipv4 (set_text a.ip_address)
  check_address6 err_subinterface_bad_ipv6 (set_text a.ipv6_address)
  check_bfd a.bfd

unfoldable pub subinterface_id : Str → Str
subinterface_id name = codes "subinterface/" ++ name

unfoldable pub sanitize_session_name : Str → Str
sanitize_session_name = map (λ c. if c == b'.' then b'-' else c)

-- The session's own part of the name, in `applySubinterface`.
unfoldable pub subinterface_tag : Str → Str
unfolding sanitize_session_name
subinterface_tag name = codes "subif-" ++ sanitize_session_name name

abbrev pub bfd_cmd : Option SubinterfaceBfd → List Str
bfd_cmd none = []
bfd_cmd (some b) =
    (codes "bfd interval "
      ++ (itoa b.interval
          ++ (codes " min-rx " ++ (itoa b.min_rx ++ (codes " multiplier " ++ itoa b.multiplier)))))
    ∷ []

unfoldable pub build_subinterface_cmds : SubinterfaceArgs → Bool → List Str
unfolding str_eq
build_subinterface_cmds a remove =
    if remove
    then (codes "no interface " ++ a.name) ∷ []
    else (codes "interface " ++ a.name)
      ∷ (codes "encapsulation dot1q vlan " ++ itoa a.encapsulation_vlan)
      ∷ (text_cmd (codes "description ") a.description
          ++ (text_cmd (codes "vrf ") a.vrf
              ++ (text_cmd (codes "ip address ") a.ip_address
                  ++ (text_cmd (codes "ipv6 address ") a.ipv6_address
                      ++ (positive_cmd (codes "mtu ") a.mtu
                          ++ (bfd_cmd a.bfd ++ state_cmd a.shutdown ∷ []))))))
