-- ===== src/Routing/Examples/Netlinks.antt =====
-- The theorems on the netlink conversions, used at a rule and a route.
use sysnet_linux.Base.{pos, negsuc, ◌≡◌, refl, [], ◌∷◌, none, some, ok, arith, ◌*◌, ◌+◌, ◌^◌}
use sysnet_linux.Net.Addr.{Addr, no_zone, is4in6}
use sysnet_linux.Net.Prefix.{prefix_from, masked}
use sysnet_linux.Routing.Unix.{af_inet, af_inet6}
use sysnet_linux.Routing.Model.{Rule, rule_unreachable, Route, route_type_unicast}
use sysnet_linux.Routing.Netlink.Addresses.{prefix_matches_family}
use sysnet_linux.Routing.Netlink.{
  NetlinkRule, NetlinkRoute, rule_from_netlink, rule_to_netlink, route_from_netlink,
  route_to_netlink,
}
use sysnet_linux.Routing.Netlink.Trips.{
  rule_from_netlink-rule_to_netlink, IsEncodable, with_valid_source,
  route_from_netlink-route_to_netlink,
}

abbrev new_rule : NetlinkRule
new_rule = record {
  family = pos 0;
  priority = negsuc 0;
  table = pos 0;
  mark = 0;
  mask = none;
  type = 0;
}

abbrev stop : Rule
stop = record {
  family = af_inet;
  priority = pos 10001;
  action = rule_unreachable;
  table = pos 7;
  mark = 0xeb9f0001;
  mask = 0xffffffff;
}

rule_from_netlink-rule_to_netlink_example :
    rule_from_netlink (rule_to_netlink new_rule stop) ≡ record stop { table = pos 0 }
rule_from_netlink-rule_to_netlink_example =
    rule_from_netlink-rule_to_netlink new_rule stop refl (λ e. ground arith)

-- 2001:db8::/32 through fe80::1 and a second hop without a gateway.
abbrev way : Route
way = record {
  family = af_inet6;
  table = pos 51820;
  dst = prefix_from (Addr.v6 (0x20010db8 * 2 ^ 96) no_zone) 32;
  gateway = Addr.v6 (0xfe80 * 2 ^ 112 + 1) no_zone;
  preferred_source = Addr.v4 0x7f000001;
  link_index = pos 7;
  priority = pos 5;
  scope = pos 253;
  flags = pos 4;
  type = route_type_unicast;
  multipath =
      record { link_index = pos 8; gateway = Addr.invalid; flags = pos 0 }
      ∷ record { link_index = pos 9; gateway = Addr.v4 0x0a000001; flags = pos 4 }
      ∷ [];
}

way-IsEncodable : IsEncodable way
unfolding prefix_matches_family is4in6 masked
way-IsEncodable = record {
  of_family = refl;
  fits = omega arith;
  dst_plain = (refl, refl);
  dst_masked = refl;
  scope_low = omega arith;
  scope_high = omega arith;
  unicast = refl;
  gateway_plain = (refl, refl);
  hops_plain = (tt, (tt, tt));
}

route_from_netlink-route_to_netlink_example :
    (n : NetlinkRoute) × (route_to_netlink way ≡ ok n)
    × (route_from_netlink n ≡ some (with_valid_source way))
route_from_netlink-route_to_netlink_example =
    route_from_netlink-route_to_netlink way way-IsEncodable
