-- ===== src/Routing/Netlink/Plain.antt =====
-- Addresses and prefixes that routing/adapter.go converts without loss.
use sysnet_linux.Base.{
  ℕ, ◌+◌, ◌*◌, ◌/◌, ◌-◌, ◌^◌, ◌==◌, leb, ℤ, ◌≡◌, refl, ap, true, false, some, if◌then◌else◌, arith,
  Bool-cases, inl, inr, ltb,
}
use sysnet_linux.Net.Addr.{Addr, is_valid, is4in6, unmap, bit_len, no_zone}
use sysnet_linux.Net.Prefix.{masked}
use sysnet_linux.Net.Ip.{nil, ip4, ip16, to4, IpNet, mask4, mask16}
use sysnet_linux.Routing.Netlink.Addresses.{
  addr_from_ip, net_ip_from_addr, prefix_from_ip_net, ip_net_from_prefix,
  valid_preferred_source_for_family, net_ip_from_preferred_source,
}
use sysnet_linux.Routing.Netlink.{gateway_from, source_from}
use text.Mathlib.TextEquality.{eq_iff}
use sysnet_linux.Routing.Config.{valid_preferred_source}

-- An address that has a form of its own: no zone, and not an IPv4 address in an IPv6 one.
abbrev pub IsPlain : Addr → Type 0
IsPlain Addr.invalid = Unit
IsPlain (Addr.v4 n) = Unit
IsPlain (Addr.v6 n z) = (z ≡ no_zone) × ((n / 2 ^ 32 == 0xffff) ≡ false)

addr_from_ip-plain :
    (a : Addr) → IsPlain a → is_valid a ≡ true → addr_from_ip (net_ip_from_addr a) ≡ some a
unfolding addr_from_ip net_ip_from_addr to4
addr_from_ip-plain Addr.invalid p v = absurd (ground arith)
addr_from_ip-plain (Addr.v4 n) p v = refl
addr_from_ip-plain (Addr.v6 n z) (e, f) v = rw (f, e) refl

pub gateway_from-plain : (a : Addr) → IsPlain a → gateway_from (net_ip_from_addr a) ≡ some a
unfolding gateway_from net_ip_from_addr
gateway_from-plain Addr.invalid p = refl
gateway_from-plain (Addr.v4 n) p = addr_from_ip-plain (Addr.v4 n) p refl
gateway_from-plain (Addr.v6 n z) p = addr_from_ip-plain (Addr.v6 n z) p refl

valid_source-IsPlain :
    (a : Addr) → valid_preferred_source a ≡ true → IsPlain a × (is_valid a ≡ true)
unfolding valid_preferred_source is4in6
valid_source-IsPlain Addr.invalid h = absurd (ground arith)
valid_source-IsPlain (Addr.v4 n) h = (tt, refl)
valid_source-IsPlain (Addr.v6 n z) h = ground (arith, eq_iff z no_zone)

returned :
    (a : Addr) (family : ℤ)
    → valid_preferred_source_for_family a family ≡ true
    → IsPlain a × (is_valid a ≡ true)
    → source_from (net_ip_from_addr a) family ≡ a
unfolding source_from net_ip_from_addr
returned Addr.invalid family v (p, q) = absurd (ground arith)
returned (Addr.v4 n) family v (p, q) = rw (addr_from_ip-plain (Addr.v4 n) p q, v) refl
returned (Addr.v6 n z) family v (p, q) = rw (addr_from_ip-plain (Addr.v6 n z) p q, v) refl

-- A preferred source that is valid for the family comes back, and any other does not.
pub source_from-net_ip_from_preferred_source :
    (a : Addr) (family : ℤ)
    → source_from (net_ip_from_preferred_source a family) family
      ≡ (if valid_preferred_source_for_family a family then a else Addr.invalid)
unfolding source_from net_ip_from_preferred_source
source_from-net_ip_from_preferred_source a family =
    elim (Bool-cases (valid_preferred_source_for_family a family)) [
      | inr n ↦ rw n refl
      | inl v ↦ rw v (returned a family v (valid_source-IsPlain a (ground (arith))))
    ]

abbrev value : Addr → ℕ
value Addr.invalid = 0
value (Addr.v4 n) = n
value (Addr.v6 n z) = n

masked_high4 :
    (n k : ℕ)
    → ltb 0 k ≡ true
    → masked (record { addr = Addr.v4 n; bits_plus_one = k })
      ≡ record { addr = Addr.v4 n; bits_plus_one = k }
    → n / 2 ^ (32 - (k - 1)) * 2 ^ (32 - (k - 1)) ≡ n
unfolding masked
masked_high4 n k h e = ap (λ p. value p.addr) (rw (h) at e)

masked_high16 :
    (n k : ℕ)
    → ltb 0 k ≡ true
    → masked (record { addr = Addr.v6 n no_zone; bits_plus_one = k })
      ≡ record { addr = Addr.v6 n no_zone; bits_plus_one = k }
    → n / 2 ^ (128 - (k - 1)) * 2 ^ (128 - (k - 1)) ≡ n
unfolding masked
masked_high16 n k h e = ap (λ p. value p.addr) (rw (h) at e)

-- What a prefix becomes.
abbrev pub network_of : Addr → ℕ → IpNet
network_of Addr.invalid ones = record { ip = nil; mask = mask16 ones }
network_of (Addr.v4 n) ones = record { ip = ip4 n; mask = mask4 ones }
network_of (Addr.v6 n z) ones = record { ip = ip16 n; mask = mask16 ones }

whole : (k : ℕ) → ltb 0 k ≡ true → k - 1 + 1 ≡ k
whole k h = ground arith

prefix_trip6 :
    (n k : ℕ)
    → ltb 0 k ≡ true
    → leb (k - 1) 128 ≡ true
    → (n / 2 ^ 32 == 0xffff) ≡ false
    → masked (record { addr = Addr.v6 n no_zone; bits_plus_one = k })
      ≡ record { addr = Addr.v6 n no_zone; bits_plus_one = k }
    → (ip_net_from_prefix (record { addr = Addr.v6 n no_zone; bits_plus_one = k })
        ≡ some (network_of (Addr.v6 n no_zone) (k - 1)))
      × (prefix_from_ip_net (network_of (Addr.v6 n no_zone) (k - 1))
          ≡ some (record { addr = Addr.v6 n no_zone; bits_plus_one = k }))
unfolding ip_net_from_prefix prefix_from_ip_net net_ip_from_addr addr_from_ip to4 is4in6 unmap
prefix_trip6 n k h l p e =
    (rw (h, p, masked_high16 n k h e) refl, rw (p, l, whole k h, h, p, masked_high16 n k h e) refl)

-- A prefix that fits, is masked, plain and of the family comes back.
pub prefix_trip :
    (a : Addr) (k : ℕ)
    → is_valid a ≡ true
    → ltb 0 k ≡ true
    → leb (k - 1) (bit_len a) ≡ true
    → IsPlain a
    → masked (record { addr = a; bits_plus_one = k }) ≡ record { addr = a; bits_plus_one = k }
    → (ip_net_from_prefix (record { addr = a; bits_plus_one = k }) ≡ some (network_of a (k - 1)))
      × (prefix_from_ip_net (network_of a (k - 1)) ≡ some (record { addr = a; bits_plus_one = k }))
unfolding ip_net_from_prefix prefix_from_ip_net net_ip_from_addr addr_from_ip to4 is4in6 unmap
prefix_trip Addr.invalid k v h l p e = absurd (ground arith)
prefix_trip (Addr.v4 n) k v h l p e =
    (rw (h, masked_high4 n k h e) refl, rw (l, whole k h, h, masked_high4 n k h e) refl)
prefix_trip (Addr.v6 n z) k v h l (q, p) e = rw q (prefix_trip6 n k h l p (rw q at e))
