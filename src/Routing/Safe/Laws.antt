-- ===== src/Routing/Safe/Laws.antt =====
-- What a route that is classified as safe cannot do: lead to everything, into the TUN, or through a
-- gateway to a public destination.
use text.Mathlib.TextEquality.{eq_iff}
use sysnet_linux.Base.{
  ℕ, ◌+◌, ◌-◌, ◌*◌, ◌/◌, ◌^◌, ◌≤◌, ◌<◌, ℤ, eq_ℤ_iff, ◌≡◌, refl, ◌≢◌, ◌↔◌, ◌⊎◌, true, false, List,
  [], ◌∷◌, All, arith,
}
use sysnet_linux.Net.Addr
use sysnet_linux.Net.Prefix
use sysnet_linux.Net.Prefix.{bits}
use sysnet_linux.Routing.Model.{Route, Nexthop, route_type_unicast}
use sysnet_linux.Routing.Safe.{
  private_or_local_prefix, safe_destination_prefixes, route_safe, classify_hops,
  classify_safe_route,
}

-- A prefix of at least `length` bits whose first `length` bits, of `width`, are `high`.
abbrev IsUnder : (width length high n : ℕ) → Prefix.Prefix → Type 0
IsUnder width length high n p = (length ≤ bits p) × (n / 2 ^ (width - length) ≡ high)

-- The address of a prefix, and the prefix: in 10.0.0.0/8, 172.16.0.0/12, 192.168.0.0/16 or
-- 169.254.0.0/16, or, without a zone, in fc00::/7 or fe80::/10.
abbrev IsPrivateAt : Addr.Addr → Prefix.Prefix → Type 0
IsPrivateAt Addr.invalid p = ⊥
IsPrivateAt (Addr.v4 n) p =
    (IsUnder 32 8 10 n p ⊎ IsUnder 32 12 (172 * 16 + 1) n p)
    ⊎ (IsUnder 32 16 (192 * 256 + 168) n p ⊎ IsUnder 32 16 (169 * 256 + 254) n p)
IsPrivateAt (Addr.v6 n z) p =
    (z ≡ Addr.no_zone) × (IsUnder 128 7 (0xfc / 2) n p ⊎ IsUnder 128 10 (0xfe80 / 64) n p)

unfoldable pub IsPrivate : Prefix.Prefix → Type 0
IsPrivate p = (Prefix.is_valid p ≡ true) × IsPrivateAt p.addr p

IsPrivate-iff : (p : Prefix.Prefix) → (private_or_local_prefix p ≡ true) ↔ IsPrivate p
unfolding IsPrivate private_or_local_prefix safe_destination_prefixes Prefix.contains
IsPrivate-iff p = of p.addr p.bits_plus_one
  where
    of :
        (a : Addr.Addr) (b : ℕ)
        → (private_or_local_prefix (record { addr = a; bits_plus_one = b }) ≡ true)
          ↔ IsPrivate (record { addr = a; bits_plus_one = b })
    of Addr.invalid b = ground arith
    of (Addr.v4 n) b = ground arith
    of (Addr.v6 n z) b = ground (arith, eq_iff z Addr.no_zone)

-- What one way out of the host must satisfy.
pub record IsDirect (tun_index : ℤ) (route : Route) (link : ℤ) (gateway : Addr.Addr) : Type 0 where
  pub off_tun : link ≢ tun_index
  pub private_or_on_link : (Addr.is_valid gateway ≡ false) ⊎ IsPrivate route.dst

pub record IsSafe (tun_index : ℤ) (route : Route) : Type 0 where
  pub unicast : route.type ≡ route_type_unicast
  pub destination : Prefix.is_valid route.dst ≡ true
  pub not_default : 0 < bits route.dst
  pub link : route.link_index ≢ tun_index
  pub single : route.multipath ≡ [] → (Addr.is_valid route.gateway ≡ false) ⊎ IsPrivate route.dst
  pub hops : All (λ h. IsDirect tun_index route h.link_index h.gateway) route.multipath

hops-IsDirect :
    (route : Route) (tun_index : ℤ) (hops : List Nexthop)
    → classify_hops route tun_index hops ≡ route_safe
    → All (λ h. IsDirect tun_index route h.link_index h.gateway) hops
unfolding classify_hops
hops-IsDirect route tun_index [] h = tt
hops-IsDirect route tun_index (hop ∷ hops) h = ground (
  arith,
  eq_ℤ_iff hop.link_index tun_index,
  IsPrivate-iff route.dst,
  hops-IsDirect route tun_index hops,
)

direct_hops :
    (route : Route) (tun_index : ℤ) (hops : List Nexthop)
    → IsSafe tun_index route
    → All (λ h. IsDirect tun_index route h.link_index h.gateway) hops
    → classify_hops route tun_index hops ≡ route_safe
unfolding classify_hops
direct_hops route tun_index [] s d = refl
direct_hops route tun_index (hop ∷ hops) s d = ground (
  arith,
  eq_ℤ_iff hop.link_index tun_index,
  IsPrivate-iff route.dst,
  direct_hops route tun_index hops,
)

IsSafe-of_classified :
    (route : Route) (tun_index : ℤ) (hops : List Nexthop)
    → route.multipath ≡ hops
    → classify_safe_route route tun_index ≡ route_safe
    → IsSafe tun_index route
unfolding classify_safe_route
IsSafe-of_classified route tun_index [] e h =
    ground (arith, eq_ℤ_iff route.link_index tun_index, IsPrivate-iff route.dst)
IsSafe-of_classified route tun_index (hop ∷ hops) e h = ground (
  arith,
  eq_ℤ_iff route.link_index tun_index,
  IsPrivate-iff route.dst,
  hops-IsDirect route tun_index (hop ∷ hops),
)

classified_of_safe :
    (route : Route) (tun_index : ℤ) (hops : List Nexthop)
    → route.multipath ≡ hops
    → IsSafe tun_index route
    → classify_safe_route route tun_index ≡ route_safe
unfolding classify_safe_route
classified_of_safe route tun_index [] e s =
    ground (arith, eq_ℤ_iff route.link_index tun_index, IsPrivate-iff route.dst)
classified_of_safe route tun_index (hop ∷ hops) e s = ground (
  arith,
  eq_ℤ_iff route.link_index tun_index,
  IsPrivate-iff route.dst,
  direct_hops route tun_index (hop ∷ hops) s,
)

-- A main-table route is classified as safe exactly when it is a unicast route to a valid prefix that
-- is not a default, is not bound to the TUN, and each way out that it names (its own gateway, or each
-- nexthop) avoids the TUN and uses a gateway only for a destination inside 10/8, 172.16/12,
-- 192.168/16, 169.254/16, fc00::/7 or fe80::/10.
pub classify_safe_route_iff :
    (route : Route) (tun_index : ℤ)
    → (classify_safe_route route tun_index ≡ route_safe) ↔ IsSafe tun_index route
classify_safe_route_iff route tun_index = (
  IsSafe-of_classified route tun_index route.multipath refl,
  classified_of_safe route tun_index route.multipath refl,
)
