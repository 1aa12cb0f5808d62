-- ===== src/Net/Addr.antt =====
-- netip.Addr of Go's standard library: the zero value, an IPv4 address of 32 bits, or an IPv6
-- address of 128 bits with its zone. Bytes are read off the number, the first byte highest.
use Prim.Native.String.{String}
use Prim.Native.String.{compare as text_compare}
use text.Mathlib.Text.{◌==◌ as str_eq}
use text.Mathlib.TextEquality.{eq_iff}
use sysnet_linux.Base.Order.{reverse_order, compare-swap, text_compare-swap}
use sysnet_linux.Base.{
  ℕ, ◌/◌, ◌%◌, ◌^◌, ◌≡◌, refl, ◌↔◌, Bool, true, false, not, ◌&&◌, ◌||◌, ◌==◌, arith, Ordering,
  compare, if◌then◌else◌,
}

pub data Addr : Type 0 where
  invalid : Addr
  v4 : ℕ → Addr
  v6 : ℕ → String → Addr

abbrev pub no_zone : String
no_zone = ""

abbrev pub is_valid : Addr → Bool
is_valid invalid = false
is_valid _ = true

abbrev pub is4 : Addr → Bool
is4 (v4 _) = true
is4 _ = false

abbrev pub is6 : Addr → Bool
is6 (v6 _ _) = true
is6 _ = false

-- An IPv4 address that is written as an IPv6 one, ::ffff:a.b.c.d.
unfoldable pub is4in6 : Addr → Bool
is4in6 (v6 n z) = n / 2 ^ 32 == 0xffff
is4in6 _ = false

abbrev pub zone : Addr → String
zone (v6 n z) = z
zone _ = no_zone

abbrev pub bit_len : Addr → ℕ
bit_len invalid = 0
bit_len (v4 _) = 32
bit_len (v6 _ _) = 128

unfoldable pub addr_eq : Addr → Addr → Bool
addr_eq invalid invalid = true
addr_eq (v4 a) (v4 b) = a == b
addr_eq (v6 a y) (v6 b z) = a == b && str_eq y z
addr_eq _ _ = false

pub addr_eq_iff : (a b : Addr) → (addr_eq a b ≡ true) ↔ (a ≡ b)
unfolding addr_eq
addr_eq_iff invalid invalid = (λ h. refl, λ e. refl)
addr_eq_iff invalid (v4 b) = (λ h. ground arith, λ e. ground arith)
addr_eq_iff invalid (v6 b z) = (λ h. ground arith, λ e. ground arith)
addr_eq_iff (v4 a) invalid = (λ h. ground arith, λ e. ground arith)
addr_eq_iff (v4 a) (v4 b) = (λ h. ground arith, λ e. ground arith)
addr_eq_iff (v4 a) (v6 b z) = (λ h. ground arith, λ e. ground arith)
addr_eq_iff (v6 a y) invalid = (λ h. ground arith, λ e. ground arith)
addr_eq_iff (v6 a y) (v4 b) = (λ h. ground arith, λ e. ground arith)
addr_eq_iff (v6 a y) (v6 b z) = (λ h. ground (arith, eq_iff y z), λ e. ground (arith, eq_iff y z))

-- Addr.Compare: by family, then by value, then by zone.
abbrev then_by : Ordering → Ordering → Ordering
then_by Ordering.eq o = o
then_by o _ = o

unfoldable pub compare_addr : Addr → Addr → Ordering
compare_addr (v4 a) (v4 b) = compare a b
compare_addr (v6 a y) (v6 b z) = then_by (compare a b) (text_compare y z)
compare_addr a b = compare (bit_len a) (bit_len b)

-- Addr.Unmap.
unfoldable pub unmap : Addr → Addr
unfolding is4in6
unmap (v6 n z) = if is4in6 (v6 n z) then v4 (n % 2 ^ 32) else v6 n z
unmap a = a

abbrev unspecified4 : Addr
unspecified4 = v4 0

abbrev unspecified6 : Addr
unspecified6 = v6 0 no_zone

unfoldable pub is_unspecified : Addr → Bool
unfolding addr_eq
is_unspecified a = addr_eq a unspecified4 || addr_eq a unspecified6

loopback_plain : Addr → Bool
loopback_plain invalid = false
loopback_plain (v4 n) = n / 2 ^ 24 == 127
loopback_plain (v6 n z) = n == 1

unfoldable pub is_loopback : Addr → Bool
unfolding loopback_plain unmap
is_loopback a = loopback_plain (unmap a)

multicast_plain : Addr → Bool
multicast_plain invalid = false
multicast_plain (v4 n) = n / 2 ^ 28 == 0xe
multicast_plain (v6 n z) = n / 2 ^ 120 == 0xff

unfoldable pub is_multicast : Addr → Bool
unfolding multicast_plain unmap
is_multicast a = multicast_plain (unmap a)

link_local_plain : Addr → Bool
link_local_plain invalid = false
link_local_plain (v4 n) = n / 2 ^ 16 == 0xa9fe
link_local_plain (v6 n z) = n / 2 ^ 118 == 0x3fa

unfoldable pub is_link_local_unicast : Addr → Bool
unfolding link_local_plain unmap
is_link_local_unicast a = link_local_plain (unmap a)

global_plain : Addr → Bool
unfolding addr_eq loopback_plain multicast_plain link_local_plain
global_plain invalid = false
global_plain (v4 n) =
    not (n == 0 || n == 0xffffffff)
    && not (loopback_plain (v4 n))
    && not (multicast_plain (v4 n))
    && not (link_local_plain (v4 n))
global_plain (v6 n z) =
    not (addr_eq (v6 n z) unspecified6)
    && not (loopback_plain (v6 n z))
    && not (multicast_plain (v6 n z))
    && not (link_local_plain (v6 n z))

unfoldable pub is_global_unicast : Addr → Bool
unfolding global_plain unmap
is_global_unicast a = global_plain (unmap a)

pub compare_addr-swap : (a b : Addr) → compare_addr b a ≡ reverse_order (compare_addr a b)
unfolding compare_addr
compare_addr-swap invalid invalid = refl
compare_addr-swap invalid (v4 b) = refl
compare_addr-swap invalid (v6 b z) = refl
compare_addr-swap (v4 a) invalid = refl
compare_addr-swap (v4 a) (v4 b) = compare-swap a b
compare_addr-swap (v4 a) (v6 b z) = refl
compare_addr-swap (v6 a y) invalid = refl
compare_addr-swap (v6 a y) (v4 b) = refl
compare_addr-swap (v6 a y) (v6 b z) = ground (arith, compare-swap a b, text_compare-swap y z)
