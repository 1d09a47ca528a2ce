-- ===== src/Provider/Transactions.antt =====
-- The operations of the registered resources on a device.
use pulumi_eos.Base.{Bool, All}
use pulumi_eos.Text.Laws.{NoSpace}
use pulumi_eos.Goeapi.{Goeapi}
use pulumi_eos.Std.{Std}
use pulumi_eos.Eapi.Device.{SessionDevice}
use pulumi_eos.Config.{Config, session_prefix}
use pulumi_eos.Resource.Kind.Laws.{IsSafe, IsTransactional, kind-IsTransactional}
use pulumi_eos.L2.EvpnEthernetSegment
use pulumi_eos.L3.Loopback
use pulumi_eos.L3.Vrf
use pulumi_eos.L3.Bfd.Laws.{bfd-IsSafe}
use pulumi_eos.L3.Subinterface
use pulumi_eos.L3.StaticRoute.Laws.{AreWords, static_route-IsSafe}
use pulumi_eos.L3.CommunityList
use pulumi_eos.L3.ExtCommunityList
use pulumi_eos.L3.AsPathAccessList
use pulumi_eos.L3.Rpki
use pulumi_eos.L3.ResilientEcmp.Laws.{resilient_ecmp-IsSafe}
use pulumi_eos.Provider.{
  Registered, evpn_ethernet_segments, loopbacks, vrfs, bfds, subinterfaces, static_routes,
  community_lists, ext_community_lists, as_path_access_lists, rpkis, resilient_ecmps, Inputs,
  registered_kind,
}

-- Texts that are words, or single lines, as the commands of the kind need them.
abbrev pub CanSend : (r : Registered) → Inputs r → Type 0
CanSend evpn_ethernet_segments a = EvpnEthernetSegment.Laws.IsSendable a
CanSend loopbacks a = Loopback.Laws.IsSendable a
CanSend vrfs a = Vrf.Laws.IsSendable a
CanSend bfds a = Unit
CanSend subinterfaces a = Subinterface.Laws.IsSendable a
CanSend static_routes a = AreWords a
CanSend community_lists a = CommunityList.Laws.IsSendable a
CanSend ext_community_lists a = ExtCommunityList.Laws.IsSendable a
CanSend as_path_access_lists a = AsPathAccessList.Laws.IsSendable a
CanSend rpkis a = Rpki.Laws.IsSendable a
CanSend resilient_ecmps a = All NoSpace a.prefix

registered-IsSafe : (r : Registered) (a : Inputs r) → CanSend r a → IsSafe (registered_kind r) a
registered-IsSafe evpn_ethernet_segments a h =
    EvpnEthernetSegment.Laws.evpn_ethernet_segment-IsSafe a h
registered-IsSafe loopbacks a h = Loopback.Laws.loopback-IsSafe a h
registered-IsSafe vrfs a h = Vrf.Laws.vrf-IsSafe a h
registered-IsSafe bfds a h = bfd-IsSafe a
registered-IsSafe subinterfaces a h = Subinterface.Laws.subinterface-IsSafe a h
registered-IsSafe static_routes a h = static_route-IsSafe a h
registered-IsSafe community_lists a h = CommunityList.Laws.community_list-IsSafe a h
registered-IsSafe ext_community_lists a h = ExtCommunityList.Laws.ext_community_list-IsSafe a h
registered-IsSafe as_path_access_lists a h = AsPathAccessList.Laws.as_path_access_list-IsSafe a h
registered-IsSafe rpkis a h = Rpki.Laws.rpki-IsSafe a h
registered-IsSafe resilient_ecmps a h = resilient_ecmp-IsSafe a h

-- Create, Update and Delete of eleven registered resources are transactions on a device that
-- implements configuration sessions, whatever calls to it fail. Each of them returns. An error
-- leaves the running configuration as it was. A success of Create and Update means that the inputs
-- are valid and that the answer is the resource; and then, as for Delete, the commands are replayed
-- on the running configuration behind those that the session held, except in a dry run, which
-- changes nothing. The session prefix has no spaces, and the texts of the inputs are words or single
-- lines.
pub registered_transactions :
    (r : Registered) (g : Goeapi) (d : SessionDevice g) (std : Std) (cfg : Config) (a : Inputs r)
    (dry_run : Bool) (w : g.World)
    → All NoSpace (session_prefix cfg)
    → CanSend r a
    → IsTransactional (registered_kind r) g d std cfg a dry_run w
registered_transactions r g d std cfg a dry_run w hp h =
    kind-IsTransactional (registered_kind r) g d std cfg a dry_run w hp (registered-IsSafe r a h)
