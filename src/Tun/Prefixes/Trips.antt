-- ===== src/Tun/Prefixes/Trips.antt =====
-- tun/config.go and tun/address_linux.go: a prefix survives the way to the netlink library and back.
use sysnet_linux.Base.{
  ==_iff, sym, ℕ, ◌+◌, ◌-◌, ◌*◌, ◌/◌, ◌%◌, ◌^◌, ◌<◌, ◌≡◌, refl, ap, ◌==◌, true, false, Option, some,
  arith,
}
use sysnet_linux.Net.Addr.{Addr, is6, no_zone}
use sysnet_linux.Net.Prefix.{Prefix, is_valid}
use sysnet_linux.Net.Ip.{to4}
use sysnet_linux.Tun.Prefixes.{
  NetlinkAddr, nodad, addr_from_ip, net_ip_from_addr, ip_net_from_prefix, netlink_addr_from_prefix,
  tun_addr_prefix,
}

-- An IPv4 address of 32 bits, or an IPv6 one that has no zone and is not an IPv4 address in disguise.
abbrev pub IsPlain : Addr → Type 0
IsPlain Addr.invalid = ⊥
IsPlain (Addr.v4 n) = n < 2 ^ 32
IsPlain (Addr.v6 n z) = ((n / 2 ^ 32 == 0xffff) ≡ false) × (z ≡ no_zone)

abbrev pub NetlinkOf : Prefix → Option NetlinkAddr → Type 0
NetlinkOf p o =
    (a : NetlinkAddr) × (o ≡ some a)
    × (tun_addr_prefix a ≡ some p)
    × (a.flags ≡ (elim (is6 p.addr) [ true ↦ nodad | false ↦ 0 ]))

length_again :
    (b : ℕ) → (is_valid (record { addr = Addr.invalid; bits_plus_one = b }) ≡ true) → b - 1 + 1 ≡ b
length_again b v = ground arith

mapped_high : (n : ℕ) → n < 2 ^ 32 → ((0xffff * 2 ^ 32 + n) / 2 ^ 32 == 0xffff) ≡ true
mapped_high n h = (==_iff _ _).1 (omega arith)

mapped_low : (n : ℕ) → n < 2 ^ 32 → (0xffff * 2 ^ 32 + n) % 2 ^ 32 ≡ n
mapped_low n h = omega arith

-- Every valid prefix of a plain address becomes an address of the netlink library that is read as
-- the same prefix, with NODAD exactly for IPv6.
pub tun_addr_prefix-netlink_addr_from_prefix :
    (p : Prefix) → is_valid p ≡ true → IsPlain p.addr → NetlinkOf p (netlink_addr_from_prefix p)
unfolding netlink_addr_from_prefix ip_net_from_prefix net_ip_from_addr tun_addr_prefix addr_from_ip
    to4
tun_addr_prefix-netlink_addr_from_prefix p v h = of p.addr p.bits_plus_one v h
  where
    of :
        (a : Addr) (b : ℕ)
        → is_valid (record { addr = a; bits_plus_one = b }) ≡ true
        → IsPlain a
        → NetlinkOf
            (record { addr = a; bits_plus_one = b })
            (netlink_addr_from_prefix (record { addr = a; bits_plus_one = b }))
    of Addr.invalid b v h = elim h [ ]
    of (Addr.v4 n) b v h = rw v (
      _,
      refl,
      rw (mapped_high n h, mapped_low n h)
          (ap (λ t. some (record { addr = Addr.v4 n; bits_plus_one = t })) (length_again b v)),
      refl,
    )
    of (Addr.v6 n z) b v (h, e) = rw v (
      _,
      refl,
      rw h (λ i. some (record { addr = Addr.v6 n (sym e i); bits_plus_one = length_again b v i })),
      refl,
    )
