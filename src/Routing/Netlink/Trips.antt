-- ===== src/Routing/Netlink/Trips.antt =====
-- What routing/adapter.go sends to the kernel comes back when it is read.
use sysnet_linux.Base.{
  ℕ, ◌≤◌, ℤ, pos, pos_part, ltb_ℤ, ◌≤ℤ◌, eq_ℤ, negsuc, ◌&&◌, ◌≡◌, ◌≢◌, refl, sym, ap, ◌==◌, ==_iff,
  true, false, ◌||◌, List, [], ◌∷◌, map, Option, none, some, ok, All, if◌then◌else◌, arith,
  Bool-cases, inl, inr,
}
use sysnet_linux.Net.Addr.{Addr, is_valid, is4, is6, bit_len}
use sysnet_linux.Net.Prefix.{Prefix, masked}
use sysnet_linux.Net.Prefix
use sysnet_linux.Routing.Unix.{fr_act_unreachable, af_inet, af_inet6}
use sysnet_linux.Routing.Model.{
  Rule, RuleAction, rule_lookup, rule_unreachable, Route, route_type_unicast, Nexthop,
}
use sysnet_linux.Routing.Netlink.Addresses.{
  prefix_matches_family, prefix_from_ip_net, valid_preferred_source_for_family, ip_net_from_prefix,
}
use sysnet_linux.Routing.Netlink.{
  NetlinkRule, NetlinkRoute, mask_or_zero, rule_from_netlink, rule_to_netlink, hops_from,
  hop_to_netlink, normalized_route, route_from_netlink, route_to_netlink, with_destination,
  netlink_route,
}
use sysnet_linux.Routing.Netlink.Plain.{
  IsPlain, gateway_from-plain, source_from-net_ip_from_preferred_source, prefix_trip, network_of,
}

-- An unreachable rule has no table.
abbrev pub without_table : Rule → Rule
without_table r = elim r.action [ rule_unreachable ↦ record r { table = pos 0 } | rule_lookup ↦ r ]

mask_trip :
    (unset : Option ℕ) (mask : ℕ)
    → unset ≡ none
    → mask_or_zero (if mask == 0 then unset else some mask) ≡ mask
mask_trip unset mask e = elim (Bool-cases (mask == 0)) [
  | inl z ↦ rw (z, e) (omega (arith, (==_iff mask 0).0 z))
  | inr n ↦ rw n refl
]

abbrev rule_of : RuleAction → ℤ → ℤ → ℤ → ℕ → ℕ → Rule
rule_of action family priority table mark mask = record {
  family = family;
  priority = priority;
  action = action;
  table = table;
  mark = mark;
  mask = mask;
}

rule_trip :
    (new_rule : NetlinkRule) (action : RuleAction) (family priority table : ℤ) (mark mask : ℕ)
    → new_rule.mask ≡ none
    → new_rule.type ≢ fr_act_unreachable
    → rule_from_netlink (rule_to_netlink new_rule (rule_of action family priority table mark mask))
      ≡ without_table (rule_of action family priority table mark mask)
unfolding rule_from_netlink rule_to_netlink
rule_trip new_rule rule_unreachable family priority table mark mask m t =
    ap (rule_of rule_unreachable family priority (pos 0) mark) (mask_trip new_rule.mask mask m)
rule_trip new_rule rule_lookup family priority table mark mask m t =
    rw (differs)
      (ap (rule_of rule_lookup family priority table mark) (mask_trip new_rule.mask mask m))
  where
    differs : (new_rule.type == fr_act_unreachable) ≡ false
    differs = ground (arith, ==_iff new_rule.type fr_act_unreachable)

-- When a new rule of the netlink library has no mask and is not unreachable, every rule comes back
-- from its netlink form, an unreachable one without its table.
pub rule_from_netlink-rule_to_netlink :
    (new_rule : NetlinkRule) (r : Rule)
    → new_rule.mask ≡ none
    → new_rule.type ≢ fr_act_unreachable
    → rule_from_netlink (rule_to_netlink new_rule r) ≡ without_table r
unfolding rule_from_netlink rule_to_netlink
rule_from_netlink-rule_to_netlink new_rule r m t =
    rule_trip new_rule r.action r.family r.priority r.table r.mark r.mask m t

hops_from-hop_to_netlink :
    (hs : List Nexthop)
    → All (λ h. IsPlain h.gateway) hs
    → hops_from (map hop_to_netlink hs) ≡ some (false, hs)
unfolding hops_from hop_to_netlink
hops_from-hop_to_netlink [] p = refl
hops_from-hop_to_netlink (h ∷ hs) p =
    rw (hops_from-hop_to_netlink hs p.1, gateway_from-plain h.gateway p.0) refl

-- A route that has a netlink form: a unicast one to a masked prefix of its family, with a scope that
-- is a byte and plain addresses.
pub record IsEncodable (r : Route) : Type 0 where
  pub of_family : prefix_matches_family r.dst r.family ≡ true
  pub fits : Prefix.bits r.dst ≤ bit_len r.dst.addr
  pub dst_plain : IsPlain r.dst.addr
  pub dst_masked : masked r.dst ≡ r.dst
  pub scope_low : pos 0 ≤ℤ r.scope
  pub scope_high : r.scope ≤ℤ pos 255
  pub unicast : r.type ≡ route_type_unicast
  pub gateway_plain : IsPlain r.gateway
  pub hops_plain : All (λ h. IsPlain h.gateway) r.multipath

-- A preferred source that is not valid for the family is dropped.
abbrev pub with_valid_source : Route → Route
with_valid_source r = record r {
  preferred_source =
      if valid_preferred_source_for_family r.preferred_source r.family
      then r.preferred_source
      else Addr.invalid;
}

abbrev netlink_form : Route → NetlinkRoute
netlink_form r = netlink_route r (network_of r.dst.addr (Prefix.bits r.dst)) (pos_part r.scope)

matching :
    (p : Prefix) (family : ℤ)
    → prefix_matches_family p family ≡ true
    → (is_valid p.addr ≡ true) × (Prefix.is_valid p ≡ true)
unfolding prefix_matches_family
matching p family h = (has_address p.addr family (ground arith), ground arith)
  where
    has_address :
        (a : Addr) (family : ℤ)
        → ((eq_ℤ family af_inet && is4 a) || (eq_ℤ family af_inet6 && is6 a)) ≡ true
        → is_valid a ≡ true
    has_address Addr.invalid family h = ground arith
    has_address (Addr.v4 n) family h = refl
    has_address (Addr.v6 n z) family h = refl

scope_back : (s : ℤ) → pos 0 ≤ℤ s → pos (pos_part s) ≡ s
scope_back (pos n) h = refl
scope_back (negsuc n) h = absurd (omega arith)

dst_trip :
    (r : Route)
    → IsEncodable r
    → (ip_net_from_prefix r.dst ≡ some (network_of r.dst.addr (Prefix.bits r.dst)))
      × (prefix_from_ip_net (network_of r.dst.addr (Prefix.bits r.dst)) ≡ some r.dst)
dst_trip r e =
    prefix_trip r.dst.addr r.dst.bits_plus_one (matching r.dst r.family e.of_family).0
      (matching r.dst r.family e.of_family).1 (ground (arith, e.fits)) e.dst_plain e.dst_masked

scope_ok : (r : Route) → IsEncodable r → (ltb_ℤ r.scope (pos 0) || ltb_ℤ (pos 255) r.scope) ≡ false
scope_ok r e = ground (arith, e.scope_low, e.scope_high)

encoded : (r : Route) → IsEncodable r → route_to_netlink r ≡ ok (netlink_form r)
unfolding route_to_netlink with_destination
encoded r e = rw (e.of_family, (dst_trip r e).0, scope_ok r e) refl

decoded :
    (r : Route) → IsEncodable r → route_from_netlink (netlink_form r) ≡ some (with_valid_source r)
unfolding route_from_netlink normalized_route netlink_route
decoded r e =
    rw
      (
        (dst_trip r e).1,
        gateway_from-plain r.gateway e.gateway_plain,
        hops_from-hop_to_netlink r.multipath e.hops_plain,
        e.of_family,
        source_from-net_ip_from_preferred_source r.preferred_source r.family,
      )
      (λ i. some (record (with_valid_source r) {
        scope = scope_back r.scope e.scope_low i;
        type = sym e.unicast i;
      }))

-- Every encodable route, a unicast one to a masked prefix of its family with a scope that is a byte
-- and plain addresses, has a netlink form, and comes back from it, except for a preferred source
-- that is not valid for the family, which is dropped.
pub route_from_netlink-route_to_netlink :
    (r : Route)
    → IsEncodable r
    → (n : NetlinkRoute) × (route_to_netlink r ≡ ok n)
      × (route_from_netlink n ≡ some (with_valid_source r))
route_from_netlink-route_to_netlink r e = (netlink_form r, encoded r e, decoded r e)
