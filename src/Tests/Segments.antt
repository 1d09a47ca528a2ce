-- ===== src/Tests/Segments.antt =====
-- EVPN Ethernet segments on the switch of the tests.
use pulumi_eos.Base.{true, false, none, some, ◌≡◌, refl}
use pulumi_eos.Text.{Str, codes, join}
use pulumi_eos.Text.Split.{IsWord}
use pulumi_eos.Eapi.Staying.{is_keyword, is_keyword-IsWord}
use pulumi_eos.Errors.{ok}
use pulumi_eos.L2.EvpnEthernetSegment.{
  EvpnEthernetSegmentArgs, build_evpn_ethernet_segment_cmds, validate_evpn_ethernet_segment,
}
use pulumi_eos.L2.EvpnEthernetSegment.Parse.{parse_evpn_ethernet_segment_config}
use pulumi_eos.L2.EvpnEthernetSegment.Filling.{Named, by_preference}
use pulumi_eos.L2.EvpnEthernetSegment.Panics.{parse-preference_panics}
use pulumi_eos.Tests.{no_access}

abbrev uplink : EvpnEthernetSegmentArgs
uplink = record {
  parent_interface = codes "Port-Channel10";
  identifier = codes "0011:1111:1111:1111:1111";
  redundancy = some (codes "all-active");
  route_target_import = none;
  designated_forwarder = some (by_preference none none);
  access = no_access;
}

-- The inputs are valid.
uplink_valid : validate_evpn_ethernet_segment uplink ≡ ok tt
unfolding validate_evpn_ethernet_segment
uplink_valid = refl

word : (w : Str) → is_keyword w ≡ true → IsWord w
word w h = (is_keyword-IsWord w h).0

uplink-Named : Named uplink
unfolding is_keyword
uplink-Named = (
  word (codes "Port-Channel10") refl,
  word (codes "0011:1111:1111:1111:1111") refl,
  word (codes "all-active") refl,
  tt,
)

parse-preference_panics_example :
    parse_evpn_ethernet_segment_config
      (join (build_evpn_ethernet_segment_cmds uplink false) (codes "\n"))
      uplink.parent_interface
    ≡ none
parse-preference_panics_example = parse-preference_panics uplink none none uplink-Named
