-- ===== src/L2/EvpnEthernetSegment.antt =====
-- internal/resources/l2/evpn_ethernet_segment.go. The configuration's text is read in
-- EvpnEthernetSegment/Parse.
pub mod Parse
pub mod Laws
pub mod Filling
pub mod Panics
use pulumi_eos.Base.{
  ℕ, Bool, true, false, not, ◌&&◌, ◌||◌, ◌==◌, leb, length, List, [], ◌∷◌, ◌++◌, Option, none, some,
  if◌then◌else◌, ℤ, pos, ltb_ℤ,
}
use pulumi_eos.Text.{Str, codes, str_eq, split, trim_space}
use pulumi_eos.Text.Decimal.{itoa}
use pulumi_eos.Errors.{
  GoError, sentinel, wrapped, text, number, Result, ok, err, ◌>>=◌, ◌>>◌, refuse_if,
}
use pulumi_eos.Resource.{Access}
use pulumi_eos.Resource.Kind.{Kind}
use pulumi_eos.Commands.{set_text, text_cmd, positive_cmd, is_on}
use pulumi_eos.L2.Interface.{sanitize_for_session}

abbrev pub err_es_parent_required : GoError
err_es_parent_required = sentinel (codes "evpnEthernetSegment parentInterface is required")

abbrev pub err_es_identifier_required : GoError
err_es_identifier_required = sentinel (codes "evpnEthernetSegment identifier is required")

abbrev pub err_es_identifier_bad_format : GoError
err_es_identifier_bad_format = sentinel (
    codes
      "evpnEthernetSegment identifier must be five colon-separated hex groups of four digits, e.g. 0011:1111:1111:1111:1111")

abbrev pub err_es_route_target_bad_format : GoError
err_es_route_target_bad_format = sentinel (
    codes
      "evpnEthernetSegment routeTargetImport must be a MAC-style six-group hex string, e.g. 12:23:34:45:56:67")

abbrev pub err_es_redundancy_invalid : GoError
err_es_redundancy_invalid =
    sentinel
      (codes "evpnEthernetSegment redundancy must be all-active, single-active, or port-active")

abbrev pub err_es_df_algorithm_invalid : GoError
err_es_df_algorithm_invalid =
    sentinel (
      codes "evpnEthernetSegment designatedForwarder.algorithm must be modulus, hrw, or preference")

abbrev pub err_es_df_preference_range : GoError
err_es_df_preference_range =
    sentinel (codes "evpnEthernetSegment designatedForwarder.preference must be 0..65535")

abbrev pub err_es_df_preference_with_alg : GoError
err_es_df_preference_with_alg = sentinel (
    codes
      "evpnEthernetSegment designatedForwarder.preference is only valid when algorithm=preference")

abbrev pub err_es_df_hold_time_range : GoError
err_es_df_hold_time_range =
    sentinel (codes "evpnEthernetSegment designatedForwarder.holdTime must be greater than 0")

pub record DesignatedForwarder : Type 0 where
  pub algorithm : Str
  pub preference : Option ℤ
  pub dont_preempt : Option Bool
  pub hold_time : Option ℤ

pub record EvpnEthernetSegmentArgs : Type 0 where
  pub parent_interface : Str
  pub identifier : Str
  pub redundancy : Option Str
  pub route_target_import : Option Str
  pub designated_forwarder : Option DesignatedForwarder
  pub access : Access

abbrev pub es_df_algorithm_preference : Str
es_df_algorithm_preference = codes "preference"

abbrev pub is_hex : ℕ → Bool
is_hex c = (leb b'0' c && leb c b'9') || (leb b'a' c && leb c b'f') || (leb b'A' c && leb c b'F')

abbrev pub all_hex : Str → Bool
all_hex [] = true
all_hex (c ∷ s) = is_hex c && all_hex s

-- Groups of hexadecimal digits, each of a length between two bounds.
abbrev pub hex_groups : ℕ → ℕ → List Str → Bool
hex_groups low high [] = true
hex_groups low high (s ∷ ss) =
    all_hex s && leb low (length s) && leb (length s) high && hex_groups low high ss

-- `esIdentifierRE.MatchString`
unfoldable pub matches_identifier : Str → Bool
unfolding split
matches_identifier s = length (split s b':') == 5 && hex_groups 4 4 (split s b':')

-- `esRouteTargetRE.MatchString`
unfoldable pub matches_route_target : Str → Bool
unfolding split
matches_route_target s = length (split s b':') == 6 && hex_groups 1 2 (split s b':')

abbrev pub check_route_target : Option Str → Result (Unit {0})
check_route_target none = ok tt
check_route_target (some s) =
    refuse_if (not (matches_route_target s))
      (wrapped (codes "%w (got %q)") (text s ∷ []) err_es_route_target_bad_format)

abbrev pub known_redundancy : Str → Bool
known_redundancy s =
    str_eq s []
    || str_eq s (codes "all-active")
    || str_eq s (codes "single-active")
    || str_eq s (codes "port-active")

abbrev pub check_redundancy : Option Str → Result (Unit {0})
check_redundancy none = ok tt
check_redundancy (some s) =
    refuse_if (not (known_redundancy s))
      (wrapped (codes "%w (got %q)") (text s ∷ []) err_es_redundancy_invalid)

abbrev pub known_algorithm : Str → Bool
known_algorithm s =
    str_eq s []
    || str_eq s (codes "modulus")
    || str_eq s (codes "hrw")
    || str_eq s es_df_algorithm_preference

abbrev pub check_preference : Str → Option ℤ → Result (Unit {0})
check_preference algorithm none = ok tt
check_preference algorithm (some p) = do
  refuse_if (not (str_eq algorithm es_df_algorithm_preference)) err_es_df_preference_with_alg
  refuse_if (ltb_ℤ p (pos 0) || ltb_ℤ (pos 65535) p)
      (wrapped (codes "%w (got %d)") (number p ∷ []) err_es_df_preference_range)

abbrev pub check_hold_time : Option ℤ → Result (Unit {0})
check_hold_time none = ok tt
check_hold_time (some t) =
    refuse_if (not (ltb_ℤ (pos 0) t))
      (wrapped (codes "%w (got %d)") (number t ∷ []) err_es_df_hold_time_range)

abbrev pub validate_designated_forwarder : Option DesignatedForwarder → Result (Unit {0})
validate_designated_forwarder none = ok tt
validate_designated_forwarder (some d) = do
  refuse_if (not (known_algorithm d.algorithm))
      (wrapped (codes "%w (got %q)") (text d.algorithm ∷ []) err_es_df_algorithm_invalid)
  check_preference d.algorithm d.preference
  check_hold_time d.hold_time

unfoldable pub validate_evpn_ethernet_segment : EvpnEthernetSegmentArgs → Result (Unit {0})
unfolding str_eq trim_space matches_identifier matches_route_target
validate_evpn_ethernet_segment a = do
  refuse_if (str_eq (trim_space a.parent_interface) []) err_es_parent_required
  refuse_if (str_eq (trim_space a.identifier) []) err_es_identifier_required
  refuse_if (not (matches_identifier a.identifier))
      (wrapped (codes "%w (got %q)") (text a.identifier ∷ []) err_es_identifier_bad_format)
  check_route_target (set_text a.route_target_import)
  check_redundancy a.redundancy
  validate_designated_forwarder a.designated_forwarder

unfoldable pub evpn_ethernet_segment_id : Str → Str
evpn_ethernet_segment_id parent = codes "evpn-ethernet-segment/" ++ parent

-- The session's own part of the name, in `applyEvpnEthernetSegment`.
unfoldable pub evpn_ethernet_segment_tag : Str → Str
unfolding sanitize_for_session
evpn_ethernet_segment_tag parent = codes "es-" ++ sanitize_for_session parent

abbrev pub dont_preempt_part : Option Bool → Str
dont_preempt_part o = if is_on o then codes " dont-preempt" else []

abbrev pub preference_part : Bool → DesignatedForwarder → Option ℤ → Str
preference_part true d (some p) = codes " " ++ (itoa p ++ dont_preempt_part d.dont_preempt)
preference_part _ d _ = []

abbrev pub df_header : Str
df_header = codes "designated-forwarder election algorithm "

abbrev pub algorithm_cmd : DesignatedForwarder → List Str
algorithm_cmd d =
    if str_eq d.algorithm []
    then []
    else (df_header
        ++ (d.algorithm
            ++ preference_part (str_eq d.algorithm es_df_algorithm_preference) d d.preference))
      ∷ []

unfoldable pub df_election_cmds : Option DesignatedForwarder → List Str
unfolding str_eq
df_election_cmds none = []
df_election_cmds (some d) =
    algorithm_cmd d ++ positive_cmd (codes "designated-forwarder election hold-time ") d.hold_time

unfoldable pub build_evpn_ethernet_segment_cmds : EvpnEthernetSegmentArgs → Bool → List Str
unfolding str_eq df_election_cmds
build_evpn_ethernet_segment_cmds a remove =
    (codes "interface " ++ a.parent_interface)
    ∷ codes "no evpn ethernet-segment"
    ∷ (if remove
        then []
        else codes "evpn ethernet-segment"
          ∷ (codes "identifier " ++ a.identifier)
          ∷ (text_cmd (codes "redundancy ") a.redundancy
              ++ (text_cmd (codes "route-target import ") a.route_target_import
                  ++ df_election_cmds a.designated_forwarder)))

-- Create, Update and Delete.
unfoldable pub evpn_ethernet_segment : Kind EvpnEthernetSegmentArgs
unfolding validate_evpn_ethernet_segment evpn_ethernet_segment_id evpn_ethernet_segment_tag
    build_evpn_ethernet_segment_cmds
evpn_ethernet_segment = record {
  validate = validate_evpn_ethernet_segment;
  id = λ a. evpn_ethernet_segment_id a.parent_interface;
  tag = λ a. evpn_ethernet_segment_tag a.parent_interface;
  commands = build_evpn_ethernet_segment_cmds;
  prepare = λ a. ok tt;
  access = λ a. a.access;
  label = codes "evpn-ethernet-segment %s";
  operands = λ a. text a.parent_interface ∷ [];
}
