-- ===== src/L3/StaticRoute/Parse.antt =====
-- internal/resources/l3/static_route.go: `parseStaticRouteLines`, `fillState`, and the operations.
use pulumi_eos.Base.{
  Bool, not, ◌&&◌, List, [], ◌∷◌, Option, none, some, if◌then◌else◌, ℤ, pos, ltb_ℤ, eqb_ℤ,
}
use pulumi_eos.Text.{Str, codes, str_eq, cut_prefix, split, trim_space, fields}
use pulumi_eos.Text.Decimal.{atoi}
use pulumi_eos.Errors.{text, ok}
use pulumi_eos.Resource.Kind.{Kind, Reader}
use pulumi_eos.L2.Switchport.{taken_or, text_or, positive_or}
use pulumi_eos.L3.StaticRoute.{
  StaticRouteArgs, validate_static_route, static_route_id, static_route_tag,
  build_static_route_cmds, vrf_or,
}

pub record StaticRouteRow : Type 0 where
  pub distance : ℤ
  pub tag : ℤ
  pub name : Str
  pub metric : ℤ
  pub track : Str

-- A line's row, its VRF, its prefix and its next hop.
pub record Line : Type 0 where
  pub row : StaticRouteRow
  pub vrf : Str
  pub prefix : Str
  pub next_hop : Str

-- `switch key`
abbrev pub set_option : Str → Str → StaticRouteRow → StaticRouteRow
set_option key v row =
    if str_eq key (codes "tag")
    then record row { tag = taken_or row.tag (atoi v) }
    else if str_eq key (codes "name")
    then record row { name = v }
    else if str_eq key (codes "metric")
    then record row { metric = taken_or row.metric (atoi v) }
    else if str_eq key (codes "track")
    then record row { track = v }
    else row

-- The loop over the pairs of a key and a value; a last word alone is left.
unfoldable pub parse_options : List Str → StaticRouteRow → StaticRouteRow
unfolding atoi str_eq
parse_options (key ∷ v ∷ rest) row = parse_options rest (set_option key v row)
parse_options _ row = row

abbrev pub base : StaticRouteRow
base = record { distance = pos 1; tag = pos 0; name = []; metric = pos 0; track = [] }

-- A first number in 1..255 is the distance; `word` is the number's own text.
abbrev pub from_distance : Str → List Str → Option ℤ → StaticRouteRow
from_distance word rest none = parse_options (word ∷ rest) base
from_distance word rest (some d) =
    if not (ltb_ℤ d (pos 1)) && not (ltb_ℤ (pos 255) d)
    then parse_options rest (record base { distance = d })
    else parse_options (word ∷ rest) base

abbrev pub parse_tail : List Str → StaticRouteRow
parse_tail [] = base
parse_tail (word ∷ rest) = from_distance word rest (atoi word)

-- Behind the VRF, if there is one.
abbrev pub parse_hop : Str → List Str → Option Line
parse_hop vrf (prefix ∷ next_hop ∷ rest) =
    some (record { row = parse_tail rest; vrf = vrf; prefix = prefix; next_hop = next_hop })
parse_hop vrf _ = none

-- Four words at least.
unfoldable pub parse_tokens : List Str → Option Line
unfolding str_eq atoi parse_options
parse_tokens (ip ∷ route ∷ first ∷ second ∷ rest) =
    if str_eq ip (codes "ip") && str_eq route (codes "route")
    then if str_eq first (codes "vrf")
      then parse_hop second rest
      else parse_hop [] (first ∷ second ∷ rest)
    else none
parse_tokens _ = none

unfoldable pub parse_static_route_line : Str → Option Line
unfolding fields parse_tokens
parse_static_route_line line = parse_tokens (fields line)

abbrev pub is_wanted : StaticRouteArgs → Line → Bool
is_wanted a l =
    str_eq l.vrf (vrf_or [] a.vrf) && str_eq l.prefix a.prefix && str_eq l.next_hop a.next_hop

-- What one trimmed line gives.
abbrev pub wanted : StaticRouteArgs → Option Line → Option StaticRouteRow
wanted a none = none
wanted a (some l) = if is_wanted a l then some l.row else none

abbrev pub on_route : StaticRouteArgs → Str → Option Str → Option StaticRouteRow
on_route a line none = none
on_route a line (some rest) = wanted a (parse_static_route_line line)

abbrev pub first_some : Option StaticRouteRow → Option StaticRouteRow → Option StaticRouteRow
first_some (some row) rest = some row
first_some none rest = rest

-- The loop over the lines, which returns at the first route that is the wanted one.
unfoldable pub find_route : StaticRouteArgs → List Str → Option StaticRouteRow
unfolding trim_space cut_prefix str_eq parse_static_route_line
find_route a [] = none
find_route a (raw ∷ rest) =
    let later = find_route a rest in
    first_some (on_route a (trim_space raw) (cut_prefix (trim_space raw) (codes "ip route "))) later

unfoldable pub parse_static_route_lines : Str → StaticRouteArgs → Option StaticRouteRow
unfolding find_route split
parse_static_route_lines out a = find_route a (split out b'\n')

unfoldable pub fill_state : StaticRouteRow → StaticRouteArgs → StaticRouteArgs
unfolding str_eq
fill_state r a = record a {
  distance =
      if ltb_ℤ (pos 0) r.distance && not (eqb_ℤ r.distance (pos 1))
      then some r.distance
      else a.distance;
  tag = positive_or a.tag r.tag;
  name = text_or a.name r.name;
  metric = positive_or a.metric r.metric;
  track = text_or a.track r.track;
}

-- Create, Update and Delete, and Read.
unfoldable pub static_route : Kind StaticRouteArgs
unfolding validate_static_route static_route_id static_route_tag build_static_route_cmds
static_route = record {
  validate = validate_static_route;
  id = static_route_id;
  tag = static_route_tag;
  commands = build_static_route_cmds;
  prepare = λ a. ok tt;
  access = λ a. a.access;
  label = codes "static route %s";
  operands = λ a. text (static_route_id a) ∷ [];
}

unfoldable pub static_route_reader : Reader StaticRouteArgs StaticRouteRow
unfolding parse_static_route_lines fill_state
static_route_reader = record {
  show = λ a. codes "show running-config | grep ip";
  parse = λ a out. parse_static_route_lines out a;
  missing = none;
  fill = fill_state;
}
