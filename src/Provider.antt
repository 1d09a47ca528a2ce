-- ===== src/Provider.antt =====
-- internal/provider/provider.go: the resources that `New` registers, as far as Resource/Kind describes
-- their operations.
pub mod Transactions
use pulumi_eos.Resource.Kind.{Kind}
use pulumi_eos.L2.EvpnEthernetSegment.{EvpnEthernetSegmentArgs, evpn_ethernet_segment}
use pulumi_eos.L3.Loopback.{LoopbackArgs, loopback}
use pulumi_eos.L3.Vrf.{VrfArgs, vrf}
use pulumi_eos.L3.Bfd.{BfdArgs, bfd}
use pulumi_eos.L3.Subinterface.{SubinterfaceArgs}
use pulumi_eos.L3.Subinterface.Parse.{subinterface}
use pulumi_eos.L3.StaticRoute.{StaticRouteArgs}
use pulumi_eos.L3.StaticRoute.Parse.{static_route}
use pulumi_eos.L3.CommunityList.{CommunityListArgs}
use pulumi_eos.L3.CommunityList.Parse.{community_list}
use pulumi_eos.L3.ExtCommunityList.{ExtCommunityListArgs}
use pulumi_eos.L3.ExtCommunityList.Parse.{ext_community_list}
use pulumi_eos.L3.AsPathAccessList.{AsPathAccessListArgs, as_path_access_list}
use pulumi_eos.L3.Rpki.{RpkiArgs}
use pulumi_eos.L3.Rpki.Parse.{rpki}
use pulumi_eos.L3.ResilientEcmp.{ResilientEcmpArgs, resilient_ecmp}

-- Of the arguments of `WithResources`, in their order.
pub data Registered : Type 0 where
  evpn_ethernet_segments : Registered
  loopbacks : Registered
  vrfs : Registered
  bfds : Registered
  subinterfaces : Registered
  static_routes : Registered
  community_lists : Registered
  ext_community_lists : Registered
  as_path_access_lists : Registered
  rpkis : Registered
  resilient_ecmps : Registered

abbrev pub Inputs : Registered → Type 0
Inputs evpn_ethernet_segments = EvpnEthernetSegmentArgs
Inputs loopbacks = LoopbackArgs
Inputs vrfs = VrfArgs
Inputs bfds = BfdArgs
Inputs subinterfaces = SubinterfaceArgs
Inputs static_routes = StaticRouteArgs
Inputs community_lists = CommunityListArgs
Inputs ext_community_lists = ExtCommunityListArgs
Inputs as_path_access_lists = AsPathAccessListArgs
Inputs rpkis = RpkiArgs
Inputs resilient_ecmps = ResilientEcmpArgs

abbrev pub registered_kind : (r : Registered) → Kind (Inputs r)
registered_kind evpn_ethernet_segments = evpn_ethernet_segment
registered_kind loopbacks = loopback
registered_kind vrfs = vrf
registered_kind bfds = bfd
registered_kind subinterfaces = subinterface
registered_kind static_routes = static_route
registered_kind community_lists = community_list
registered_kind ext_community_lists = ext_community_list
registered_kind as_path_access_lists = as_path_access_list
registered_kind rpkis = rpki
registered_kind resilient_ecmps = resilient_ecmp
