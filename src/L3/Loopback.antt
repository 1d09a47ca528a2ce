-- ===== src/L3/Loopback.antt =====
-- internal/resources/l3/loopback.go.
pub mod Laws
use pulumi_eos.Base.{
  Bool, true, false, not, ◌&&◌, ◌||◌, List, [], ◌∷◌, ◌++◌, Option, none, some, if◌then◌else◌, ℤ,
  pos, ltb_ℤ,
}
use pulumi_eos.Text.{Str, codes, str_eq, split, contains, cut_prefix}
use pulumi_eos.Text.Decimal.{itoa}
use pulumi_eos.Text.Netip.{parse_prefix4}
use pulumi_eos.Text.Netip6.{is_prefix6}
use pulumi_eos.Errors.{
  GoError, sentinel, wrapped, text, number, Result, ok, err, ◌>>=◌, ◌>>◌, refuse_if,
}
use pulumi_eos.Resource.{Access}
use pulumi_eos.Resource.Kind.{Kind, Reader}
use pulumi_eos.Commands.{set_text, text_cmd, is_on, state_cmd}
use pulumi_eos.L2.Switchport.{text_or}
use pulumi_eos.L3.PrefixList.{is_set}
use pulumi_eos.L3.Listing.{over_lines}

abbrev pub err_loopback_number_out_of_range : GoError
err_loopback_number_out_of_range = sentinel (codes "loopback number must be in 0..1000")

abbrev pub err_loopback_bad_ipv4 : GoError
err_loopback_bad_ipv4 =
    sentinel (codes "loopback ipAddress must be a valid IPv4 CIDR (e.g. 10.0.0.1/32)")

abbrev pub err_loopback_bad_ipv6 : GoError
err_loopback_bad_ipv6 =
    sentinel (codes "loopback ipv6Address must be a valid IPv6 CIDR (e.g. fc00::1/128)")

abbrev pub err_loopback_no_address : GoError
err_loopback_no_address =
    sentinel (codes "loopback requires at least one of ipAddress or ipv6Address")

pub record LoopbackArgs : Type 0 where
  pub loopback : ℤ
  pub ip_address : Option Str
  pub ipv6_address : Option Str
  pub vrf : Option Str
  pub description : Option Str
  pub shutdown : Option Bool
  pub access : Access

-- An address that has to parse where it is set.
abbrev pub check_address4 : GoError → Option Str → Result (Unit {0})
check_address4 e none = ok tt
check_address4 e (some s) =
    refuse_if (not (is_set (parse_prefix4 s))) (wrapped (codes "%w: %q") (text s ∷ []) e)

abbrev pub check_address6 : GoError → Option Str → Result (Unit {0})
check_address6 e none = ok tt
check_address6 e (some s) =
    refuse_if (not (is_prefix6 s)) (wrapped (codes "%w: %q") (text s ∷ []) e)

unfoldable pub validate_loopback : LoopbackArgs → Result (Unit {0})
unfolding str_eq parse_prefix4 is_prefix6
validate_loopback a = do
  refuse_if (ltb_ℤ a.loopback (pos 0) || ltb_ℤ (pos 1000) a.loopback)
      (wrapped (codes "%w: got %d") (number a.loopback ∷ []) err_loopback_number_out_of_range)
  refuse_if (not (is_set (set_text a.ip_address)) && not (is_set (set_text a.ipv6_address)))
      err_loopback_no_address
  check_address4 err_loopback_bad_ipv4 (set_text a.ip_address)
  check_address6 err_loopback_bad_ipv6 (set_text a.ipv6_address)

unfoldable pub loopback_id : ℤ → Str
loopback_id n = codes "loopback/" ++ itoa n

abbrev pub loopback_name : ℤ → Str
loopback_name n = codes "Loopback" ++ itoa n

-- The session's own part of the name, in `applyLoopback`.
unfoldable pub loopback_tag : ℤ → Str
loopback_tag n = codes "loopback-" ++ itoa n

unfoldable pub build_loopback_cmds : LoopbackArgs → Bool → List Str
unfolding str_eq
build_loopback_cmds a remove =
    if remove
    then (codes "no interface " ++ loopback_name a.loopback) ∷ []
    else (codes "interface " ++ loopback_name a.loopback)
      ∷ (text_cmd (codes "description ") a.description
          ++ (text_cmd (codes "vrf ") a.vrf
              ++ (text_cmd (codes "ip address ") a.ip_address
                  ++ (text_cmd (codes "ipv6 address ") a.ipv6_address
                      ++ state_cmd a.shutdown ∷ []))))

pub record LoopbackRow : Type 0 where
  pub description : Str
  pub vrf : Str
  pub address : Str
  pub ipv6_address : Str
  pub shutdown : Bool

-- The `switch` of the loop, on a trimmed line.
unfoldable pub parse_loopback_line : Str → LoopbackRow → LoopbackRow
unfolding cut_prefix str_eq
parse_loopback_line line row = elim (cut_prefix line (codes "description ")) [
  | some v ↦ record row { description = v }
  | none ↦ elim (cut_prefix line (codes "vrf ")) [
    | some v ↦ record row { vrf = v }
    | none ↦ elim (cut_prefix line (codes "ipv6 address ")) [
      | some v ↦ record row { ipv6_address = v }
      | none ↦ elim (cut_prefix line (codes "ip address ")) [
        | some v ↦ record row { address = v }
        | none ↦ if str_eq line (codes "shutdown") then record row { shutdown = true } else row
      ]
    ]
  ]
]

abbrev pub no_row : LoopbackRow
no_row = record { description = []; vrf = []; address = []; ipv6_address = []; shutdown = false }

unfoldable pub parse_loopback_config : Str → ℤ → Option LoopbackRow
unfolding contains split over_lines parse_loopback_line
parse_loopback_config out n =
    if contains out (codes "interface " ++ loopback_name n)
    then some (over_lines parse_loopback_line (split out b'\n') no_row)
    else none

-- `readLoopback` behind the call.
unfoldable pub loopback_row : LoopbackArgs → Str → Option LoopbackRow
unfolding str_eq parse_loopback_config
loopback_row a out = if str_eq out [] then none else parse_loopback_config out a.loopback

unfoldable pub fill_state : LoopbackRow → LoopbackArgs → LoopbackArgs
unfolding str_eq
fill_state r a = record a {
  description = text_or a.description r.description;
  vrf = text_or a.vrf r.vrf;
  ip_address = text_or a.ip_address r.address;
  ipv6_address = text_or a.ipv6_address r.ipv6_address;
  shutdown = if r.shutdown then some true else a.shutdown;
}

-- Create, Update and Delete, and Read.
unfoldable pub loopback : Kind LoopbackArgs
unfolding validate_loopback loopback_id loopback_tag build_loopback_cmds
loopback = record {
  validate = validate_loopback;
  id = λ a. loopback_id a.loopback;
  tag = λ a. loopback_tag a.loopback;
  commands = build_loopback_cmds;
  prepare = λ a. ok tt;
  access = λ a. a.access;
  label = codes "loopback %d";
  operands = λ a. number a.loopback ∷ [];
}

unfoldable pub loopback_reader : Reader LoopbackArgs LoopbackRow
unfolding loopback_row fill_state
loopback_reader = record {
  show = λ a. codes "show running-config interfaces " ++ loopback_name a.loopback;
  parse = loopback_row;
  missing = none;
  fill = fill_state;
}
