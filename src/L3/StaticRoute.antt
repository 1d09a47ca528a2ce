-- ===== src/L3/StaticRoute.antt =====
-- internal/resources/l3/static_route.go. The grepped configuration is read in StaticRoute/Parse.
pub mod Parse
pub mod Laws
pub mod Echo
pub mod Shown
use pulumi_eos.Base.{
  ℕ, Bool, true, false, not, ◌&&◌, ◌||◌, ◌==◌, List, [], ◌∷◌, ◌++◌, Option, none, some,
  if◌then◌else◌, ℤ, pos, ltb_ℤ, eqb_ℤ,
}
use pulumi_eos.Text.{Str, codes, str_eq, split, join, cut_prefix}
use pulumi_eos.Text.Decimal.{itoa}
use pulumi_eos.Text.Cut.{is_number}
use pulumi_eos.Text.Netip.{parse_prefix4, parse_addr4}
use pulumi_eos.Errors.{
  GoError, sentinel, wrapped, text, number, Result, ok, err, ◌>>=◌, ◌>>◌, refuse_if,
}
use pulumi_eos.Resource.{Access}
use pulumi_eos.Commands.{set_text}
use pulumi_eos.L3.PrefixList.{is_set, sanitize_prefix_list_name}

abbrev pub err_static_route_bad_prefix : GoError
err_static_route_bad_prefix = sentinel (codes "staticRoute prefix must be a valid IPv4 CIDR")

abbrev pub err_static_route_bad_next_hop : GoError
err_static_route_bad_next_hop =
    sentinel (codes "staticRoute nextHop must be an IPv4 address or an EOS interface name")

abbrev pub err_static_route_bad_distance : GoError
err_static_route_bad_distance = sentinel (codes "staticRoute distance must be in 1..255")

abbrev pub err_static_route_bad_tag : GoError
err_static_route_bad_tag = sentinel (codes "staticRoute tag must be in 0..4294967295")

abbrev pub err_static_route_bad_metric : GoError
err_static_route_bad_metric = sentinel (codes "staticRoute metric must be > 0")

abbrev pub err_static_route_empty_text : GoError
err_static_route_empty_text = sentinel (codes "staticRoute name / track must be non-empty when set")

abbrev pub err_static_route_spaces_in_text : GoError
err_static_route_spaces_in_text =
    sentinel (codes "staticRoute name / track must not contain spaces")

pub record StaticRouteArgs : Type 0 where
  pub prefix : Str
  pub next_hop : Str
  pub vrf : Option Str
  pub distance : Option ℤ
  pub tag : Option ℤ
  pub name : Option Str
  pub metric : Option ℤ
  pub track : Option Str
  pub access : Access

abbrev all_numbers : List Str → Bool
all_numbers [] = true
all_numbers (n ∷ ns) = is_number n && all_numbers ns

-- A number with a subinterface's number behind a dot, or without one.
abbrev with_sub : (Str → Bool) → List Str → Bool
with_sub p (x ∷ []) = p x
with_sub p (x ∷ sub ∷ []) = p x && is_number sub
with_sub p _ = false

-- What stands behind a prefix of the name.
abbrev behind : Str → Str → (Str → Bool) → Bool
behind s w p = elim (cut_prefix s w) [ none ↦ false | some rest ↦ p rest ]

-- `staticRouteIfaceRe.MatchString`
unfoldable pub matches_iface : Str → Bool
unfolding str_eq cut_prefix split is_number
matches_iface s =
    str_eq s (codes "Null0")
    || behind s (codes "Ethernet") (λ r. with_sub (λ p. all_numbers (split p b'/')) (split r b'.'))
    || behind s (codes "Loopback") is_number
    || behind s (codes "Management") is_number
    || behind s (codes "Port-Channel") (λ r. with_sub is_number (split r b'.'))
    || behind s (codes "Vlan") is_number
    || behind s (codes "Vxlan") is_number

unfoldable pub valid_static_route_next_hop : Str → Bool
unfolding parse_addr4 matches_iface
valid_static_route_next_hop s = parse_addr4 s || matches_iface s

-- A number that has to lie in a range where it is set.
abbrev pub check_range : ℤ → ℤ → GoError → Option ℤ → Result (Unit {0})
check_range low high e none = ok tt
check_range low high e (some n) =
    refuse_if (ltb_ℤ n low || ltb_ℤ high n) (wrapped (codes "%w: got %d") (number n ∷ []) e)

abbrev pub check_metric : Option ℤ → Result (Unit {0})
check_metric none = ok tt
check_metric (some n) =
    refuse_if (not (ltb_ℤ (pos 0) n))
      (wrapped (codes "%w: got %d") (number n ∷ []) err_static_route_bad_metric)

-- strings.ContainsAny(s, " \t")
abbrev pub has_blank : Str → Bool
has_blank [] = false
has_blank (c ∷ s) = c == b' ' || c == b'\t' || has_blank s

abbrev pub validate_static_route_text : Option Str → Str → Result (Unit {0})
validate_static_route_text none field = ok tt
validate_static_route_text (some s) field = do
  refuse_if (str_eq s []) (wrapped (codes "%w: %s") (text field ∷ []) err_static_route_empty_text)
  refuse_if (has_blank s)
      (wrapped (codes "%w: %s=%q") (text field ∷ text s ∷ []) err_static_route_spaces_in_text)

unfoldable pub validate_static_route : StaticRouteArgs → Result (Unit {0})
unfolding str_eq parse_prefix4 valid_static_route_next_hop
validate_static_route a = do
  refuse_if (not (is_set (parse_prefix4 a.prefix)))
      (wrapped (codes "%w: %q") (text a.prefix ∷ []) err_static_route_bad_prefix)
  refuse_if (not (valid_static_route_next_hop a.next_hop))
      (wrapped (codes "%w: %q") (text a.next_hop ∷ []) err_static_route_bad_next_hop)
  check_range (pos 1) (pos 255) err_static_route_bad_distance a.distance
  check_range (pos 0) (pos 4294967295) err_static_route_bad_tag a.tag
  check_metric a.metric
  validate_static_route_text a.name (codes "name")
  validate_static_route_text a.track (codes "track")

abbrev pub vrf_or : Str → Option Str → Str
vrf_or default o = elim (set_text o) [ none ↦ default | some s ↦ s ]

abbrev pub distance_or_one : Option ℤ → ℤ
distance_or_one none = pos 1
distance_or_one (some d) = d

unfoldable pub static_route_id : StaticRouteArgs → Str
unfolding str_eq
static_route_id a =
    codes "route/"
    ++ (vrf_or (codes "default") a.vrf
        ++ (codes "/"
            ++ (a.prefix
                ++ (codes "/"
                    ++ (a.next_hop ++ (codes "/" ++ itoa (distance_or_one a.distance)))))))

-- The replacer is that of the prefix list.
unfoldable pub static_route_session_token : StaticRouteArgs → Str
unfolding str_eq sanitize_prefix_list_name
static_route_session_token a =
    sanitize_prefix_list_name (vrf_or (codes "default") a.vrf)
    ++ (codes "-"
        ++ (sanitize_prefix_list_name a.prefix
            ++ (codes "-"
                ++ (sanitize_prefix_list_name a.next_hop
                    ++ (codes "-" ++ itoa (distance_or_one a.distance))))))

-- The session's own part of the name, in `applyStaticRoute`.
unfoldable pub static_route_tag : StaticRouteArgs → Str
unfolding static_route_session_token
static_route_tag a = codes "route-" ++ static_route_session_token a

abbrev pub vrf_words : Option Str → List Str
vrf_words o = elim (set_text o) [ none ↦ [] | some s ↦ codes "vrf" ∷ s ∷ [] ]

abbrev pub distance_words : Option ℤ → List Str
distance_words none = []
distance_words (some d) = if eqb_ℤ d (pos 1) then [] else itoa d ∷ []

abbrev pub tag_words : Option ℤ → List Str
tag_words none = []
tag_words (some n) = if eqb_ℤ n (pos 0) then [] else codes "tag" ∷ itoa n ∷ []

abbrev pub metric_words : Option ℤ → List Str
metric_words none = []
metric_words (some n) = if ltb_ℤ (pos 0) n then codes "metric" ∷ itoa n ∷ [] else []

abbrev pub text_words : Str → Option Str → List Str
text_words key o = elim (set_text o) [ none ↦ [] | some s ↦ key ∷ s ∷ [] ]

abbrev pub route_words : StaticRouteArgs → List Str
route_words a =
    codes "ip"
    ∷ codes "route"
    ∷ (vrf_words a.vrf ++ (a.prefix ∷ a.next_hop ∷ distance_words a.distance))

abbrev pub option_words : StaticRouteArgs → List Str
option_words a =
    tag_words a.tag
    ++ (text_words (codes "name") a.name
        ++ (metric_words a.metric ++ text_words (codes "track") a.track))

unfoldable pub build_static_route_cmds : StaticRouteArgs → Bool → List Str
unfolding str_eq join
build_static_route_cmds a remove =
    if remove
    then (codes "no " ++ join (route_words a) (codes " ")) ∷ []
    else join (route_words a ++ option_words a) (codes " ") ∷ []
