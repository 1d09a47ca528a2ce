-- ===== src/Tests/Routing.antt =====
-- Routing resources on the switch of the tests.
use pulumi_eos.Base.{
  false≢true, ap, ◌↔◌, ◌≤ℤ◌, true, false, List, [], ◌∷◌, ◌++◌, none, some, ◌≡◌, inl, inr, refl, pos,
  All, arith,
}
use pulumi_eos.Text.{Str, codes, str_eq, fields, is_space, trim_space, trim_right, join}
use pulumi_eos.Text.Decimal.{itoa}
use pulumi_eos.Text.Netip.{parse_prefix4}
use pulumi_eos.Text.Netip6.{parses_prefix6}
use pulumi_eos.Text.Split.{IsWord}
use pulumi_eos.Text.Laws.{NoSpace}
use pulumi_eos.Eapi.Lab.{lab, lab_device, lab_step}
use pulumi_eos.Eapi.Device.{has_newline}
use pulumi_eos.Eapi.Staying.{OneLine, is_keyword, is_keyword-IsWord}
use pulumi_eos.Resource.Kind.{create_kind}
use pulumi_eos.Resource.Kind.Laws.{IsTransactional}
use pulumi_eos.L3.PrefixList.{is_set}
use pulumi_eos.L3.Listing.{list_type_regexp}
use pulumi_eos.L3.CommunityList.{CommunityListArgs}
use pulumi_eos.L3.CommunityList.Parse
use pulumi_eos.L3.StaticRoute.{StaticRouteArgs, build_static_route_cmds}
use pulumi_eos.L3.StaticRoute.Parse.{parse_static_route_lines, static_route}
use pulumi_eos.L3.StaticRoute.Laws.{AreWords}
use pulumi_eos.L3.StaticRoute.Echo.{AreNumbers, row_of}
use pulumi_eos.L3.StaticRoute.Shown.{Foreign, parse-build_static_route_cmds}
use pulumi_eos.L3.ResilientEcmp.{
  ResilientEcmpArgs, resilient_ecmp, resilient_ecmp_reader, validate_resilient_ecmp, product,
}
use pulumi_eos.L3.ResilientEcmp.Validation.{validate_resilient_ecmp_iff}
use pulumi_eos.Errors.Laws.{Passes}
use pulumi_eos.L3.ResilientEcmp.Family.{Agrees, read-resilient_ecmp}
use pulumi_eos.Provider.{static_routes, registered_kind}
use pulumi_eos.Provider.Transactions.{registered_transactions}
use pulumi_eos.Tests.{std, config, no_access, switch, seen}
use pulumi_eos.Tests.Vlans.{prefix-NoSpace}

-- A community list of regular expressions.
abbrev peers : CommunityListArgs
peers = record {
  name = codes "PEERS";
  type = some list_type_regexp;
  entries =
      record { action = codes "permit"; value = codes "65000:.* local" }
      ∷ record { action = codes "deny"; value = codes ".*" }
      ∷ [];
  access = no_access;
}

-- The line of a list whose name begins alike.
abbrev other_list : List Str
other_list = codes "ip community-list PEERS2 permit 65000:1" ∷ []

-- A static route with most of its options.
abbrev default_route : StaticRouteArgs
default_route = record {
  prefix = codes "0.0.0.0/0";
  next_hop = codes "10.0.0.1";
  vrf = some (codes "blue");
  distance = some (pos 200);
  tag = some (pos 7);
  name = some (codes "uplink");
  metric = none;
  track = none;
  access = no_access;
}

word : (w : Str) → is_keyword w ≡ true → IsWord w
word w h = (is_keyword-IsWord w h).0

default_route-AreWords : AreWords default_route
unfolding is_keyword
default_route-AreWords = (
  word (codes "blue") refl,
  word (codes "0.0.0.0/0") refl,
  word (codes "10.0.0.1") refl,
  word (codes "uplink") refl,
  tt,
)

default_route-AreNumbers : AreNumbers default_route
default_route-AreNumbers = ((omega arith, omega arith, omega arith), omega arith, tt)

abbrev other_route : List Str
other_route = codes "ip route vrf blue 0.0.0.0/0 10.0.0.2" ∷ []

default_route-prefix : is_set (parse_prefix4 default_route.prefix) ≡ true
unfolding parse_prefix4
default_route-prefix = refl

other_route-OneLine : All OneLine other_route
unfolding has_newline
other_route-OneLine = (refl, tt)

other_route-Foreign : All (Foreign default_route) other_route
unfolding trim_space trim_right is_space fields str_eq
other_route-Foreign = (
  inr (
    codes "blue",
    (
      default_route.prefix,
      (
        codes "10.0.0.2",
        (([], inl refl), inr (inr (λ e. false≢true (ap (λ s. str_eq s default_route.next_hop) e)))),
      ),
    ),
  ),
  tt,
)

parse-build_static_route_cmds_example :
    parse_static_route_lines
      (join (other_route ++ (build_static_route_cmds default_route false ++ [])) (codes "\n"))
      default_route
    ≡ some (row_of default_route)
parse-build_static_route_cmds_example =
    parse-build_static_route_cmds other_route [] default_route default_route-prefix
      default_route-AreNumbers default_route-AreWords other_route-OneLine tt other_route-Foreign

-- An IPv6 binding without a family.
abbrev anycast : ResilientEcmpArgs
anycast = record {
  prefix = codes "2001:db8::/32";
  ip_family = none;
  capacity = pos 4;
  redundancy = pos 4;
  ordered = none;
  access = no_access;
}

anycast-NoSpace : All NoSpace anycast.prefix
unfolding is_keyword
anycast-NoSpace = (word anycast.prefix refl).1

read-resilient_ecmp_example :
    resilient_ecmp_reader.parse anycast (join (resilient_ecmp.commands anycast false) (codes "\n"))
    ≡ none
unfolding parses_prefix6 str_eq parse_prefix4
read-resilient_ecmp_example =
    read-resilient_ecmp anycast (codes "ipv6") (refl, inl refl) anycast-NoSpace (omega arith)
      (omega arith)

create-default_route :
    seen
      (create_kind (registered_kind static_routes) lab std config default_route false (switch []))
    ≡ some (
      true,
      codes "hostname leaf-01"
          ∷ codes "ip route vrf blue 0.0.0.0/0 10.0.0.1 200 tag 7 name uplink"
          ∷ [],
    )
unfolding create_kind lab_step itoa static_route
create-default_route = refl

registered_transactions_example :
    IsTransactional
      (registered_kind static_routes)
      lab
      lab_device
      std
      config
      default_route
      false
      (switch [])
registered_transactions_example =
    registered_transactions static_routes lab lab_device std config default_route false (switch [])
      prefix-NoSpace default_route-AreWords

validate_resilient_ecmp_iff_example : Passes (validate_resilient_ecmp anycast) ↔ (
    ((f : Str) × Agrees anycast f)
    × (((pos 1 ≤ℤ anycast.capacity) × (anycast.capacity ≤ℤ pos 1024))
        × (((pos 1 ≤ℤ anycast.redundancy) × (anycast.redundancy ≤ℤ pos 1023))
            × (product anycast.capacity anycast.redundancy ≤ℤ pos 2047))))
validate_resilient_ecmp_iff_example = validate_resilient_ecmp_iff anycast
