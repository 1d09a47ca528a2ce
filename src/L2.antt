-- ===== src/L2.antt =====
-- internal/resources/l2: VLANs, interfaces and what they share.
pub mod Vlan
pub mod VlanRange
pub mod Switchport
pub mod Interface
pub mod PortChannel
pub mod EvpnEthernetSegment
