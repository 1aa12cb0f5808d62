-- ===== src/Net/Prefix.antt =====
-- netip.Prefix of Go's standard library. As there, the length is kept with one added, so that the
-- zero value is no prefix. Prefixes carry no zone.
pub mod Masked
use sysnet_linux.Base.{
  ℕ, ◌+◌, ◌-◌, ◌*◌, ◌/◌, ◌^◌, ◌≡◌, ◌↔◌, Bool, true, false, ◌&&◌, ◌==◌, ltb, arith, if◌then◌else◌,
}
use sysnet_linux.Net.Addr.{Addr, zone, no_zone, addr_eq, addr_eq_iff}
use text.Mathlib.Text.{◌==◌ as str_eq}

pub record Prefix : Type 0 where
  pub addr : Addr
  pub bits_plus_one : ℕ

abbrev pub is_valid : Prefix → Bool
is_valid p = ltb 0 p.bits_plus_one

-- Prefix.Bits of a valid prefix; the source reads it of no other.
abbrev pub bits : Prefix → ℕ
bits p = p.bits_plus_one - 1

abbrev pub without_zone : Addr → Addr
without_zone (Addr.v6 n z) = Addr.v6 n no_zone
without_zone a = a

-- PrefixFrom for a length that fits the address.
abbrev pub prefix_from : Addr → ℕ → Prefix
prefix_from a b = record { addr = without_zone a; bits_plus_one = b + 1 }

abbrev pub zero_prefix : Prefix
zero_prefix = record { addr = Addr.invalid; bits_plus_one = 0 }

unfoldable pub prefix_eq : Prefix → Prefix → Bool
unfolding addr_eq
prefix_eq p q = addr_eq p.addr q.addr && p.bits_plus_one == q.bits_plus_one

pub prefix_eq_iff : (p q : Prefix) → (prefix_eq p q ≡ true) ↔ (p ≡ q)
unfolding prefix_eq
prefix_eq_iff p q =
    (λ h. ground (arith, addr_eq_iff p.addr q.addr), λ e. ground (arith, addr_eq_iff p.addr q.addr))

abbrev keep_high : ℕ → ℕ → ℕ → ℕ
keep_high width b n = n / 2 ^ (width - b) * 2 ^ (width - b)

mask_addr : Addr → ℕ → Addr
mask_addr Addr.invalid b = Addr.invalid
mask_addr (Addr.v4 n) b = Addr.v4 (keep_high 32 b n)
mask_addr (Addr.v6 n z) b = Addr.v6 (keep_high 128 b n) no_zone

unfoldable pub masked : Prefix → Prefix
unfolding mask_addr
masked p =
    if is_valid p
    then record { addr = mask_addr p.addr (bits p); bits_plus_one = p.bits_plus_one }
    else zero_prefix

same_high : Addr → Addr → ℕ → Bool
same_high (Addr.v4 a) (Addr.v4 b) k = a / 2 ^ (32 - k) == b / 2 ^ (32 - k)
same_high (Addr.v6 a y) (Addr.v6 b z) k = a / 2 ^ (128 - k) == b / 2 ^ (128 - k)
same_high _ _ k = false

unfoldable pub contains : Prefix → Addr → Bool
unfolding same_high
contains p a = is_valid p && str_eq (zone a) no_zone && same_high a p.addr (bits p)
