-- ===== src/Lib.antt =====
-- Verification of sysnet-linux, a Go library that a VPN client uses to set up a Linux host.
--
-- The package routing/ is the core: it turns a Config and a snapshot of the main routing table into
-- policy rules and routes (CompileDesiredState), and a Manager puts these into the kernel and takes
-- them away again. While the Manager switches from one state to the next, transition guards
-- (unreachable rules in their own priority slot) stop the traffic that is not the VPN's own. A
-- monitor in the same package follows the kernel's updates of the main table and refreshes the
-- state after a delay. The package killswitch/ keeps the temporary rulesets of its callers and
-- merges them into the one that the kill switch daemon accepts per connection. The package
-- connmark/ installs nftables rules that copy marks between packets and connections. The package
-- subnet/ has the filters that keep an allocator off the address space of the host. The package
-- tun/ configures a TUN device through netlink: its addresses, routes, MTU and link state. The
-- package dns/ has the providers that make a server the system's DNS server, take it back, and
-- meanwhile forward requests to the servers that the host had before. These packages do not call
-- each other. The facade at the top of the repository (sysnet.go, default_tun.go) normalizes the
-- options of the default TUN, makes a routing configuration of them, and updates the addresses and
-- routes of a live TUN through the Manager of routing/, and closes it.
--
-- Which file models which part:
-- + Base and its children: lists, options, numbers, errors, sorting, shared lemmas. Base/Int has
--   Go's int as ℤ with a sum that wraps at 64 bits.
-- + Net/Addr and Net/Prefix: netip.Addr and netip.Prefix of Go's standard library, as numbers with
--   a family, a zone and a length, with Net/Prefix/Masked about masked prefixes. Net/Ip: net.IP,
--   net.IPMask and net.IPNet.
-- + Routing/Unix: the constants of golang.org/x/sys/unix that the package uses.
-- + Routing/Model: routing/model.go. Routing/Config: routing/config.go; Config/Sources and
--   Config/Valid describe valid configurations.
-- + Routing/Safe: routing/safe.go; Safe/Laws describes safe routes.
-- + Routing/Compiler: routing/compiler.go; Compiler/Priorities is about the order of the rules and
--   Compiler/Routes about the routes.
-- + Routing/Policy: an abstract policy, and what a list of policy rules, which the kernel goes
--   through by priority, means for a packet. Policy/Order shows that the compiled rules are in that
--   order when their block does not wrap; the other children relate them to the policy.
-- + Routing/Adapter: the interface netlinkAdapter of routing/adapter.go, as a record of operations
--   on a state of its own, and the laws about the kernel's rules that the Manager relies on. That
--   the netlink library and the kernel obey them is assumed, not proved; Routing/Examples/Kernel is
--   a kernel in memory that does.
-- + Routing/Manager: routing/manager.go. Manager/Listing has the pure helpers, Manager/Steps the
--   steps up to applyDesired, and Manager itself Apply, Refresh, Status and Rollback. The other
--   children prove what the operations leave behind.
-- + Routing/Examples: concrete data at which the theorems are used.
-- + Routing/Netlink: the conversions of routing/adapter.go between the types of the package and
--   those of the netlink library, and Netlink/Addresses those of addresses and prefixes;
--   Netlink/Handle is the real adapter over an interface for the handle of that library;
--   Netlink/Plain and Netlink/Trips are about what survives a conversion there and back.
-- + Routing/Monitor: routing/monitor.go and Manager.Close, as a step relation. A move is one case
--   of the loop's select or one operation of a caller; the timer, the channels and what the netlink
--   library answers are conditions or arguments of the moves, so that every interleaving is an
--   execution; draining the channel of a stopped subscription lasts until a move in which the
--   library has closed it. Pending, Waiting and Quiet prove what holds along the executions.
-- + Killswitch/Rules, Killswitch/Client and Killswitch/Session: killswitch/client.go, with the
--   merge of rulesets, the operations of a Client, and its connection loop as a step relation. A
--   step is one operation under the mutex, one message that is read, or one part of the loop
--   between two accesses to shared state, so that a Run is any interleaving of callers, reader and
--   loop. The children prove properties of each, and Killswitch/Examples has concrete clients and
--   an execution.
-- + Subnet: subnet/system.go and subnet/allocator.go, with Subnet/Disjoint about what the filters
--   let through and Subnet/Examples.
-- + Connmark, with Connmark/Marks and Connmark/Conn: connmark/connmark.go over an interface for the
--   nftables connection. Its laws, that a flush is one transaction and that a listing tells whether
--   the table is there, are assumed. Connmark/Packets is an interpreter of the expressions;
--   Selected, Tables and Mirroring prove what the marks, the table and a packet are after an
--   operation.
-- + System/Options: the normalization of options in sysnet.go, and the configuration that
--   BuildDefaultTun in default_tun.go makes of them; the text forms of prefixes and addresses are
--   the interface PrefixText, with the assumption that a printed prefix is parsed again as it was.
--   System/Addrs, System/Sources, System/Families and System/Built prove what comes out.
-- + System/Updates: the updates of addresses and routes in sysnet.go with their restoration, over
--   an interface for the link and for the Manager; System/Consistent and System/Settled prove that
--   the record stays consistent. System/Examples uses the theorems of both.
-- + System/Live: the updates on a TUN of Tun/Config and a Manager of Routing/Manager, which share a
--   kernel; the refreshes of the monitor between the steps of an update are left out. Live/Restored
--   and Live/InSync prove that the Manager and the record agree, and Live/Examples uses it.
-- + System/Closing: closeActive, Close and SetDNS of default_tun.go over an interface for the parts
--   of the System that they call, with the tests of closeActive as a list of actions;
--   Closing/Released proves what is released, and Closing/Examples uses it.
-- + Tun/Prefixes: the conversions and parsers of tun/config.go; Prefixes/Trips is about what
--   survives the way to the netlink library and back.
-- + Tun/Address and Address/Apply: tun/address_linux.go over the interface TunAddrNetlink, which
--   the source has too. Address/Status is what a plan of changes does to one prefix in an abstract
--   kernel, in which a change reaches its own prefix only; Loops, Reached, Quiet, Settled, Fades,
--   Cleared and Reconciled prove what the plan does there, Normalized which lists of prefixes are
--   accepted, and Verified what the operations say when they succeed.
-- + Tun/Config: the operations of tun/config.go over the interface TunLink for the file of the
--   device and for the netlink library. Tun/Routes assumes the laws RouteLaws of the routes of a
--   link, which leave open in which form the library lists a destination. Tun/Examples has a TUN in memory that obeys them.
-- + Dns/Servers: the lists of servers in dns/resolved.go. Dns/Provider: the part that
--   dns/direct.go, dns/openresolv.go and dns/debian_resolvconf.go have in common, with what
--   installs and removes the server as the interface Backend; a call is one step, calls do not
--   overlap. Provider/Upstreams, Refreshes, Forwards and Closes prove properties of it.
-- + Dns/Direct, Dns/Openresolv and Dns/DebianResolvconf: the three backends with their
--   constructors; Dns/Commands is what the last two use of the host. The parsing and printing of
--   resolv.conf are parameters. Direct/Files assumes the laws FileLaws of the file, and
--   Direct/Restores uses them; Dns/Examples has a host in memory that obeys them.
--
-- Correspondence: a Go function f is the definition f in snake case. A function that returns an
-- error returns an Option (none is nil) or a Result; the texts of errors are constructors. The
-- mutex of a Manager makes each operation one step, from a Manager and the adapter's state to an
-- error, a Manager and the adapter's state. Go's int is ℤ; only the sums of priorities can wrap and
-- do so in the model. uint32 marks are natural numbers, of which the code takes nothing but a
-- bitwise and. The uint64 version of a Client wraps at 2 ^ 64, and its map from ids is a list of
-- entries. Slices are lists, so that the copies made by the clone functions are the lists
-- themselves. A map used as a set is a test of membership in the list of what was seen.
-- slices.SortFunc and SortStableFunc are a stable insertion sort. All loops are structural, so no
-- fuel is needed.
--
-- Not modelled: in the package dns/ the choice of a provider (dns.go) and the parts that talk to
-- systemd-resolved and NetworkManager over D-Bus, with dnsname/ and resolvconffile/ copied from
-- another project; tun/tun.go, which opens the device; the matcher (matcher.go, rules.go,
-- resolver.go); auto.go, capabilities.go, the rest of sysnet.go, and how default_tun.go builds a
-- TUN. JSON, sockets and logging are left out. The kernel, the netlink library and the nftables
-- library are reached through interfaces only, and the allocator of the gonnect library is not part
-- of the model.
pub mod Base
pub mod Connmark
pub mod Net
pub mod Routing
pub mod Killswitch
pub mod Subnet
pub mod System
pub mod Tun
pub mod Dns
