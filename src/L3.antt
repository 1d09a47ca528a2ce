-- ===== src/L3.antt =====
-- internal/resources/l3: routing.
pub mod PrefixList
pub mod Listing
pub mod CommunityList
pub mod AsPathAccessList
pub mod ExtCommunityList
pub mod StaticRoute
pub mod Loopback
pub mod Subinterface
pub mod Vrf
pub mod Bfd
pub mod Rpki
pub mod ResilientEcmp
