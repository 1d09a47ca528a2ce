-- ===== src/L3/Rpki.antt =====
-- internal/resources/l3/rpki.go. The configuration's text is read in Rpki/Parse.
pub mod Parse
pub mod Laws
use pulumi_eos.Base.{
  ℕ, Bool, true, false, not, ◌&&◌, ◌||◌, ◌==◌, leb, List, [], ◌∷◌, ◌++◌, Option, none, some,
  if◌then◌else◌, ℤ, pos, ltb_ℤ,
}
use pulumi_eos.Text.{Str, codes, str_eq, trim_space}
use pulumi_eos.Text.Decimal.{itoa}
use pulumi_eos.Text.Netip.{parse_addr4}
use pulumi_eos.Errors.{
  GoError, sentinel, wrapped, text, number, Result, ok, err, ◌>>=◌, ◌>>◌, refuse_if,
}
use pulumi_eos.Resource.{Access}
use pulumi_eos.Commands.{set_text, text_cmd, number_cmd}
use pulumi_eos.L3.PrefixList.{sanitize_prefix_list_name}
use pulumi_eos.L3.StaticRoute.{check_range}

abbrev pub err_rpki_name_required : GoError
err_rpki_name_required = sentinel (codes "rpki cache name is required")

abbrev pub err_rpki_bad_name : GoError
err_rpki_bad_name = sentinel (codes "rpki cache name must match [A-Za-z][A-Za-z0-9_-]*")

abbrev pub err_rpki_asn_invalid : GoError
err_rpki_asn_invalid = sentinel (codes "rpki bgpAsn must be in 1..4294967295")

abbrev pub err_rpki_cache_host_bad_ipv4 : GoError
err_rpki_cache_host_bad_ipv4 = sentinel (codes "rpki cacheHost must be a valid IPv4 address")

abbrev pub err_rpki_port_out_of_range : GoError
err_rpki_port_out_of_range = sentinel (codes "rpki port must be in 1..65535")

abbrev pub err_rpki_preference_range : GoError
err_rpki_preference_range = sentinel (codes "rpki preference must be in 1..10")

abbrev pub err_rpki_interval_non_positive : GoError
err_rpki_interval_non_positive =
    sentinel (codes "rpki refreshInterval / retryInterval / expireInterval must be > 0 seconds")

abbrev pub err_rpki_transport_invalid : GoError
err_rpki_transport_invalid = sentinel (
    codes
      "rpki transport must be 'tcp' or 'tls' (RFC 8210 §4 + EOS TOI 14470 — `ssh` was never an EOS keyword; the TOI explicitly limits to TCP and TLS)")

pub record RpkiArgs : Type 0 where
  pub name : Str
  pub bgp_asn : ℤ
  pub cache_host : Str
  pub vrf : Option Str
  pub port : Option ℤ
  pub preference : Option ℤ
  pub refresh_interval : Option ℤ
  pub retry_interval : Option ℤ
  pub expire_interval : Option ℤ
  pub local_interface : Option Str
  pub transport : Option Str
  pub access : Access

abbrev pub is_letter : ℕ → Bool
is_letter c = (leb b'A' c && leb c b'Z') || (leb b'a' c && leb c b'z')

abbrev pub name_rune : ℕ → Bool
name_rune c = is_letter c || (leb b'0' c && leb c b'9') || c == b'_' || c == b'-'

abbrev pub all_name_runes : Str → Bool
all_name_runes [] = true
all_name_runes (c ∷ s) = name_rune c && all_name_runes s

-- `rpkiCacheNameRe.MatchString`
unfoldable pub matches_cache_name : Str → Bool
matches_cache_name [] = false
matches_cache_name (c ∷ s) = is_letter c && all_name_runes s

-- One round of the loop over the three intervals.
abbrev pub check_interval : Option ℤ → Result (Unit {0})
check_interval none = ok tt
check_interval (some n) =
    refuse_if (not (ltb_ℤ (pos 0) n))
      (wrapped (codes "%w: got %d") (number n ∷ []) err_rpki_interval_non_positive)

-- The keys of the map `validRpkiTransport`.
abbrev pub check_transport : Option Str → Result (Unit {0})
check_transport none = ok tt
check_transport (some t) =
    refuse_if (not (str_eq t (codes "tcp") || str_eq t (codes "tls")))
      (wrapped (codes "%w: got %q") (text t ∷ []) err_rpki_transport_invalid)

unfoldable pub validate_rpki : RpkiArgs → Result (Unit {0})
unfolding str_eq trim_space matches_cache_name parse_addr4
validate_rpki a = do
  refuse_if (str_eq (trim_space a.name) []) err_rpki_name_required
  refuse_if (not (matches_cache_name a.name))
      (wrapped (codes "%w: %q") (text a.name ∷ []) err_rpki_bad_name)
  refuse_if (ltb_ℤ a.bgp_asn (pos 1) || ltb_ℤ (pos 4294967295) a.bgp_asn)
      (wrapped (codes "%w: got %d") (number a.bgp_asn ∷ []) err_rpki_asn_invalid)
  refuse_if (not (parse_addr4 a.cache_host))
      (wrapped (codes "%w: %q") (text a.cache_host ∷ []) err_rpki_cache_host_bad_ipv4)
  check_range (pos 1) (pos 65535) err_rpki_port_out_of_range a.port
  check_range (pos 1) (pos 10) err_rpki_preference_range a.preference
  check_interval a.refresh_interval
  check_interval a.retry_interval
  check_interval a.expire_interval
  check_transport (set_text a.transport)

unfoldable pub rpki_id : ℤ → Str → Str
rpki_id asn name = codes "rpki/" ++ (itoa asn ++ (codes "/" ++ name))

-- The session's own part of the name, in `applyRpki`.
unfoldable pub rpki_tag : RpkiArgs → Str
unfolding sanitize_prefix_list_name
rpki_tag a = codes "rpki-" ++ (itoa a.bgp_asn ++ (codes "-" ++ sanitize_prefix_list_name a.name))

abbrev pub vrf_part : Option Str → Str
vrf_part o = elim (set_text o) [ none ↦ [] | some s ↦ codes " vrf " ++ s ]

abbrev pub port_part : Option ℤ → Str
port_part none = []
port_part (some p) = codes " port " ++ itoa p

abbrev pub host_line : RpkiArgs → Str
host_line a = codes "host " ++ (a.cache_host ++ (vrf_part a.vrf ++ port_part a.port))

abbrev pub transport_or_tcp : Option Str → Str
transport_or_tcp o = elim (set_text o) [ none ↦ codes "tcp" | some t ↦ t ]

abbrev pub cache_lines : RpkiArgs → List Str
cache_lines a =
    host_line a
    ∷ (number_cmd (codes "preference ") a.preference
        ++ (number_cmd (codes "refresh-interval ") a.refresh_interval
            ++ (number_cmd (codes "retry-interval ") a.retry_interval
                ++ (number_cmd (codes "expire-interval ") a.expire_interval
                    ++ (text_cmd (codes "local-interface ") a.local_interface
                        ++ (codes "transport " ++ transport_or_tcp a.transport) ∷ [])))))

unfoldable pub build_rpki_cmds : RpkiArgs → Bool → List Str
unfolding str_eq
build_rpki_cmds a remove =
    (codes "router bgp " ++ itoa a.bgp_asn)
    ∷ (if remove
        then (codes "no rpki cache " ++ a.name) ∷ codes "exit" ∷ []
        else (codes "rpki cache " ++ a.name) ∷ (cache_lines a ++ codes "exit" ∷ codes "exit" ∷ []))
