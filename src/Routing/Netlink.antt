-- ===== src/Routing/Netlink.antt =====
-- routing/adapter.go: the conversions between the package's rules and routes and those of the netlink
-- library. Of the library's types, the fields that the code reads or writes are modelled; a pointer
-- of which only nil is tested is a Boolean.
pub mod Addresses
pub mod Plain
pub mod Trips
pub mod Handle
use sysnet_linux.Base.{
  ℕ, ◌+◌, ℤ, pos, pos_part, negsuc, eq_ℤ, ltb_ℤ, ltb, leb, ◌==◌, Bool, true, false, not, ◌&&◌, ◌||◌,
  List, [], ◌∷◌, ◌++◌, map, Option, none, some, Result, ok, err, if◌then◌else◌,
}
use sysnet_linux.Net.Addr.{Addr, is_valid, is4, is6, is4in6, unmap, bit_len, no_zone}
use sysnet_linux.Net.Prefix.{Prefix, prefix_from, masked, without_zone}
use sysnet_linux.Net.Prefix
use sysnet_linux.Net.Ip.{
  Ip, nil, ip4, ip16, is_nil, to4, to16, Mask, mask4, mask16, IpNet, size, mask_ip,
}
use sysnet_linux.Routing.Netlink.Addresses.{
  addr_from_slice, addr_from_ip, net_ip_from_addr, fitting_prefix, prefix_of, prefix_from_ip_net,
  cidr_mask, ip_net_from_prefix, prefix_matches_family, valid_preferred_source_for_family,
  net_ip_from_preferred_source,
}
use sysnet_linux.Routing.Unix.{af_inet, af_inet6, rtn_unicast, fr_act_unreachable}
use sysnet_linux.Routing.Model.{
  Rule, RuleAction, rule_lookup, rule_unreachable, Route, RouteType, route_type_unicast,
  route_type_unsupported, Nexthop,
}
use sysnet_linux.Routing.Config.{family_default_prefix, valid_preferred_source}

pub record NetlinkRule : Type 0 where
  pub family : ℤ
  pub priority : ℤ
  pub table : ℤ
  pub mark : ℕ
  pub mask : Option ℕ
  pub type : ℕ

pub record NexthopInfo : Type 0 where
  pub link_index : ℤ
  pub gw : Ip
  pub flags : ℤ
  pub has_new_dst : Bool
  pub has_encap : Bool
  pub has_via : Bool

-- `none` in a list of hops is a nil pointer. The scope is a byte.
pub record NetlinkRoute : Type 0 where
  pub family : ℤ
  pub table : ℤ
  pub dst : Option IpNet
  pub gw : Ip
  pub src : Ip
  pub link_index : ℤ
  pub priority : ℤ
  pub scope : ℕ
  pub flags : ℤ
  pub type : ℕ
  pub multi_path : List (Option NexthopInfo)
  pub has_new_dst : Bool
  pub has_encap : Bool
  pub has_via : Bool
  pub has_mpls_dst : Bool

-- ruleFromNetlink and ruleToNetlink; `new_rule` is what netlink.NewRule returns.
abbrev mask_or_zero : Option ℕ → ℕ
mask_or_zero none = 0
mask_or_zero (some mask) = mask

unfoldable pub rule_from_netlink : NetlinkRule → Rule
rule_from_netlink r = record {
  family = r.family;
  priority = r.priority;
  action = if r.type == fr_act_unreachable then rule_unreachable else rule_lookup;
  table = if r.type == fr_act_unreachable then pos 0 else r.table;
  mark = r.mark;
  mask = mask_or_zero r.mask;
}

unfoldable pub rule_to_netlink : NetlinkRule → Rule → NetlinkRule
rule_to_netlink new_rule r =
    let out = record new_rule {
      family = r.family;
      priority = r.priority;
      mark = r.mark;
      mask = if r.mask == 0 then new_rule.mask else some r.mask;
    } in
    elim r.action [
      | rule_unreachable ↦ record out { type = fr_act_unreachable }
      | rule_lookup ↦ record out { table = r.table }
    ]

-- routeFromNetlink: `none` is the result false.
unfoldable pub gateway_from : Ip → Option Addr
gateway_from ip = if is_nil ip then some Addr.invalid else addr_from_ip ip

abbrev valid_source : ℤ → Option Addr → Addr
valid_source family none = Addr.invalid
valid_source family (some a) =
    if valid_preferred_source_for_family a family then a else Addr.invalid

unfoldable pub source_from : Ip → ℤ → Addr
source_from ip family = if is_nil ip then Addr.invalid else valid_source family (addr_from_ip ip)

abbrev is_plain_hop : NexthopInfo → Bool
is_plain_hop h = not (h.has_new_dst || h.has_encap || h.has_via)

-- The loop over the hops: whether one is not supported, and the others.
abbrev add_hop :
    NexthopInfo → Option Addr → Option (Bool × List Nexthop) → Option (Bool × List Nexthop)
add_hop h none rest = none
add_hop h (some gateway) none = none
add_hop h (some gateway) (some (bad, hops)) =
    some (bad, record { link_index = h.link_index; gateway = gateway; flags = h.flags } ∷ hops)

abbrev skip_hop : Option (Bool × List Nexthop) → Option (Bool × List Nexthop)
skip_hop none = none
skip_hop (some (bad, hops)) = some (true, hops)

unfoldable pub hops_from : List (Option NexthopInfo) → Option (Bool × List Nexthop)
unfolding gateway_from
hops_from [] = some (false, [])
hops_from (none ∷ hs) = skip_hop (hops_from hs)
hops_from (some h ∷ hs) =
    let rest = hops_from hs in
    if is_plain_hop h then add_hop h (gateway_from h.gw) rest else skip_hop rest

abbrev destination_from : ℤ → Option IpNet → Option Prefix
unfolding family_default_prefix prefix_from_ip_net
destination_from family none = some (family_default_prefix family)
destination_from family (some network) = prefix_from_ip_net network

abbrev zero_route : RouteType → Route
zero_route type = record {
  family = pos 0;
  table = pos 0;
  dst = Prefix.zero_prefix;
  gateway = Addr.invalid;
  preferred_source = Addr.invalid;
  link_index = pos 0;
  priority = pos 0;
  scope = pos 0;
  flags = pos 0;
  type = type;
  multipath = [];
}

abbrev type_from : ℕ → Bool → RouteType
type_from type bad =
    if bad || not (type == 0 || type == rtn_unicast)
    then route_type_unsupported
    else route_type_unicast

unfoldable pub normalized_route :
    NetlinkRoute → Option Prefix → Option Addr → Option (Bool × List Nexthop) → Option Route
unfolding prefix_matches_family source_from
normalized_route r (some dst) (some gateway) (some (bad, hops)) =
    if not (prefix_matches_family dst r.family)
    then none
    else some (record {
      family = r.family;
      table = r.table;
      dst = dst;
      gateway = gateway;
      preferred_source = source_from r.src r.family;
      link_index = r.link_index;
      priority = r.priority;
      scope = pos r.scope;
      flags = r.flags;
      type = type_from r.type bad;
      multipath = hops;
    })
normalized_route r _ _ _ = none

unfoldable pub route_from_netlink : NetlinkRoute → Option Route
unfolding normalized_route gateway_from hops_from destination_from
route_from_netlink r =
    if r.has_new_dst || r.has_encap || r.has_via || r.has_mpls_dst
    then some (zero_route route_type_unsupported)
    else normalized_route r (destination_from r.family r.dst) (gateway_from r.gw)
        (hops_from r.multi_path)

-- routeToNetlink.
pub data RouteError : Type 0 where
  destination_family_differs invalid_route_prefix : RouteError
  scope_out_of_range : ℤ → RouteError

unfoldable pub hop_to_netlink : Nexthop → Option NexthopInfo
unfolding net_ip_from_addr
hop_to_netlink h = some (record {
  link_index = h.link_index;
  gw = net_ip_from_addr h.gateway;
  flags = h.flags;
  has_new_dst = false;
  has_encap = false;
  has_via = false;
})

abbrev netlink_route : Route → IpNet → ℕ → NetlinkRoute
unfolding hop_to_netlink net_ip_from_addr net_ip_from_preferred_source
netlink_route r dst scope = record {
  family = r.family;
  table = r.table;
  dst = some dst;
  gw = net_ip_from_addr r.gateway;
  src = net_ip_from_preferred_source r.preferred_source r.family;
  link_index = r.link_index;
  priority = r.priority;
  scope = scope;
  flags = r.flags;
  type = rtn_unicast;
  multi_path = map hop_to_netlink r.multipath;
  has_new_dst = false;
  has_encap = false;
  has_via = false;
  has_mpls_dst = false;
}

unfoldable pub with_destination : Route → Option IpNet → Result RouteError NetlinkRoute
unfolding netlink_route
with_destination r none = err invalid_route_prefix
with_destination r (some dst) =
    if ltb_ℤ r.scope (pos 0) || ltb_ℤ (pos 255) r.scope
    then err (scope_out_of_range r.scope)
    else ok (netlink_route r dst (pos_part r.scope))

unfoldable pub route_to_netlink : Route → Result RouteError NetlinkRoute
unfolding with_destination ip_net_from_prefix prefix_matches_family
route_to_netlink r =
    if not (prefix_matches_family r.dst r.family)
    then err destination_family_differs
    else with_destination r (ip_net_from_prefix r.dst)

-- routeDeleteSpec.
abbrev clear_hop_flags : Nexthop → Nexthop
clear_hop_flags h = record h { flags = pos 0 }

unfoldable pub route_delete_spec : Route → Route
route_delete_spec r = record r { flags = pos 0; multipath = map clear_hop_flags r.multipath }
