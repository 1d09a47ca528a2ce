-- ===== src/Lib.antt =====
-- A model of pulumi-eos, the Pulumi provider for Arista EOS switches, with theorems about it.
--
-- A resource operation of the provider validates its arguments, renders them as configuration
-- commands, makes a client for the switch, and runs the commands in one named configuration session:
-- open, stage, commit, and abort where staging fails. Read asks for the running configuration as text
-- and parses it back into arguments.
--
-- Parts, and the files that model them:
--   Eapi.antt            internal/client/eapi/client.go: Client, RunCmds, Session with OpenSession,
--                        Stage, Diff, Commit, Abort and release. A method takes and returns the
--                        session and what goroutines share (the world behind goeapi and the client's
--                        slot). OpenSession answers `none` where it waits.
--     Eapi/Rich          RunCmdsRich, buildRichPayload, postEAPI, StageRich
--     Eapi/Timer         CommitTimer
--     Eapi/Interleaving  goroutines that share one client, as a step relation
--     Eapi/Progress      how the slot that they share is handed back
--     Eapi/Closed        any calls on a session that is closed
--     Eapi/Device        what the provider relies on of the switch: the documented behaviour of EOS
--                        configuration sessions, as a record of laws
--     Eapi/Modes         which commands leave the session: `exit` goes one mode up, and it leaves the
--                        session where none of the modes the provider uses has been entered
--     Eapi/Lab           a small switch that keeps these laws, with faults, on which the tests run
--     Eapi/Laws, Sending, Staying, Inside, Payload  lemmas and theorems about the above
--   Config.antt          internal/config/config.go: defaults, accessors, Configure
--     Config/Endpoint    internal/config/clients.go: splitEOSURL, hostPort
--     Config/Clients     internal/config/clients.go: EAPIClient
--   Resource.antt        what every file of internal/resources repeats around its own commands: the
--                        session block, and the bodies of Create, Update and Delete; its source is
--                        that of internal/resources/l2/vlan.go
--     Resource/Opening, Atomic, Laws  its effect on the switch
--   Resource/Kind        the same for the later resources, as functions of a value of `Kind` (validation,
--                        identifier, session name, commands) and of `Reader` (the command of Read, the
--                        parser, the state); its source is that of
--                        internal/resources/l3/static_route.go
--   Provider.antt        internal/provider/provider.go: the registered resources that are kinds
--   L2/Vlan              internal/resources/l2/vlan.go
--   L2/VlanRange         internal/resources/l2/vlan_range.go
--   L2/Switchport        internal/resources/l2/switchport.go
--   L2/Interface         internal/resources/l2/interface.go, with its parser in Interface/Parse
--   L2/PortChannel       internal/resources/l2/port_channel.go, with its parser in PortChannel/Parse
--   L3/PrefixList        internal/resources/l3/prefix_list.go, with its parser in PrefixList/Parse
--   L2/EvpnEthernetSegment  internal/resources/l2/evpn_ethernet_segment.go
--   L3/Listing           what the access lists share, and internal/resources/l3/types.go
--   L3/CommunityList, AsPathAccessList, ExtCommunityList, StaticRoute, Loopback, Subinterface, Vrf, Bfd,
--   Rpki, ResilientEcmp  internal/resources/l3/community_list.go, as_path_access_list.go,
--                        ext_community_list.go, static_route.go, loopback.go, subinterface.go, vrf.go,
--                        bfd.go, rpki.go, resilient_ecmp.go; a parser that is long is in the child
--                        Parse or Read, and what the resource sends in the child Laws
--   Device.antt          internal/resources/device/device.go
--     Device/Configlet   internal/resources/device/configlet.go
--     Device/RawCli      internal/resources/device/raw_cli.go
--   Base, Text, Commands, Errors, Json, Exec  helpers: numbers, Go's strings, strconv and netip as far
--                        as they are used, optional commands, Go errors, decoded JSON, a state and
--                        error monad
--   Goeapi, Std          parameters: goeapi, net/http and the context; net/url, time.ParseDuration,
--                        strings.ToLower and SHA-256
--   Tests                runs of the resources on Eapi/Lab, and a witness for each theorem
--
-- Conventions. Text is a list of runes. A Go `int` is an integer of Base; where a number is printed
-- and read again, `IsInt` says that it fits 64 bits. Durations are nanoseconds. A pointer is an
-- `Option`; a nil client is `none`. An error is a value with its sentinel and what it wraps. A read
-- that finds nothing is `none`. Loops are structural recursion on lists of lines, commands or entries,
-- so no fuel is used but in Eapi/Timer, where a number below 2 ^ 64 is halved 64 times at most. Sums of
-- float64 are those of the IEEE format; only Eapi/Timer has any.
--
-- An operation of a resource makes its own client, so its OpenSession never waits. `running` is the
-- running configuration, `pending` what a named session holds on the switch, and `replay` the effect of
-- commands, all three parameters. A session that an earlier run left behind keeps its commands, and the
-- theorems on transactions say so.
--
-- A regular expression is written out as a test on its text. A slice behind the end of a list panics
-- in Go; the one such place, in L2/EvpnEthernetSegment, is an answer `none`.
--
-- Not modelled: Annotate, which registers help texts; GNMIClient and the gNMI client, the CloudVision
-- client, the builder of the provider and its entry point, and the other resources of
-- internal/resources: vlan_interface, varp, stp, mlag, vxlan_interface and mac_address_table of l2,
-- route_map, rcf, policy_based_routing, router_bgp, router_ospf, vrrp and gre_tunnel of l3. They follow
-- the pattern of those above.
pub mod Base
pub mod Text
pub mod Commands
pub mod Errors
pub mod Json
pub mod Goeapi
pub mod Eapi
pub mod Std
pub mod Config
pub mod Exec
pub mod Provider
pub mod Resource
pub mod Device
pub mod L2
pub mod L3
pub mod Tests
