-- ===== src/Routing/Safe.antt =====
-- routing/safe.go: which routes of the main table may be copied into the safe table.
pub mod Laws
use sysnet_linux.Base.{
  ℕ, ◌*◌, ◌+◌, ◌^◌, ℤ, eq_ℤ, leb, ◌==◌, Bool, true, false, not, ◌&&◌, ◌||◌, List, [], ◌∷◌, any,
  if◌then◌else◌,
}
use sysnet_linux.Net.Addr.{Addr, is4, no_zone}
use sysnet_linux.Net.Addr
use sysnet_linux.Net.Prefix.{Prefix, bits, contains, prefix_from}
use sysnet_linux.Net.Prefix
use sysnet_linux.Routing.Model.{
  Route, Nexthop, RouteType, route_type_unicast, route_type_unsupported,
}

pub data SafeClassification : Type 0 where
  route_ignored route_safe route_unsafe : SafeClassification

-- 10.0.0.0/8, 172.16.0.0/12, 192.168.0.0/16 and 169.254.0.0/16, or fc00::/7 and fe80::/10.
unfoldable pub safe_destination_prefixes : Addr → List Prefix
safe_destination_prefixes a =
    if is4 a
    then prefix_from (Addr.v4 (10 * 2 ^ 24)) 8
      ∷ prefix_from (Addr.v4 (172 * 2 ^ 24 + 16 * 2 ^ 16)) 12
      ∷ prefix_from (Addr.v4 (192 * 2 ^ 24 + 168 * 2 ^ 16)) 16
      ∷ prefix_from (Addr.v4 (169 * 2 ^ 24 + 254 * 2 ^ 16)) 16
      ∷ []
    else prefix_from (Addr.v6 (0xfc * 2 ^ 120) no_zone) 7
      ∷ prefix_from (Addr.v6 (0xfe80 * 2 ^ 112) no_zone) 10
      ∷ []

unfoldable pub private_or_local_prefix : Prefix → Bool
private_or_local_prefix p =
    Prefix.is_valid p
    && any (λ allowed. leb (bits allowed) (bits p) && contains allowed p.addr)
        (safe_destination_prefixes p.addr)

is_unicast : RouteType → Bool
is_unicast route_type_unicast = true
is_unicast route_type_unsupported = false

-- The tests before that of the nexthops; `rest` is what follows them.
abbrev guarded : Route → ℤ → SafeClassification → SafeClassification
unfolding is_unicast
guarded route tun_index rest =
    if not (is_unicast route.type)
    then route_ignored
    else (if not (Prefix.is_valid route.dst)
        then route_ignored
        else (if bits route.dst == 0
            then route_unsafe
            else (if eq_ℤ route.link_index tun_index then route_unsafe else rest)))

-- ClassifySafeRoute of a route with no multipath.
unfoldable pub classify_single : Route → ℤ → SafeClassification
unfolding is_unicast
classify_single route tun_index = guarded route tun_index (
    if Addr.is_valid route.gateway && not (private_or_local_prefix route.dst)
    then route_unsafe
    else route_safe)

-- The route of one nexthop.
abbrev pub hop_route : Route → Nexthop → Route
hop_route route hop = record route {
  link_index = hop.link_index;
  gateway = hop.gateway;
  multipath = [];
}

unfoldable pub is_safe : SafeClassification → Bool
is_safe route_safe = true
is_safe _ = false

-- The loop over the nexthops.
unfoldable pub classify_hops : Route → ℤ → List Nexthop → SafeClassification
unfolding classify_single is_safe
classify_hops route tun_index [] = route_safe
classify_hops route tun_index (hop ∷ hops) =
    let rest = classify_hops route tun_index hops in
    if is_safe (classify_single (hop_route route hop) tun_index) then rest else route_unsafe

abbrev by_multipath : Route → ℤ → List Nexthop → SafeClassification
unfolding classify_single classify_hops
by_multipath route tun_index [] = classify_single route tun_index
by_multipath route tun_index (hop ∷ hops) =
    guarded route tun_index (classify_hops route tun_index (hop ∷ hops))

-- ClassifySafeRoute.
unfoldable pub classify_safe_route : Route → ℤ → SafeClassification
unfolding classify_single classify_hops
classify_safe_route route tun_index = by_multipath route tun_index route.multipath
