-- ===== src/Net/Ip.antt =====
-- net.IP, net.IPMask and net.IPNet of Go's standard library. A slice of four or sixteen bytes is a
-- number; one of another length is `nil`, as the code treats them alike. A mask is given by its
-- leading ones, or irregular.
use sysnet_linux.Base.{
  ℕ, ◌+◌, ◌-◌, ◌*◌, ◌/◌, ◌%◌, ◌^◌, ◌==◌, Bool, true, false, ◌&&◌, Option, none, some, if◌then◌else◌,
}

pub data Ip : Type 0 where
  nil : Ip
  ip4 ip16 : ℕ → Ip

pub data Mask : Type 0 where
  mask4 mask16 : ℕ → Mask
  irregular : Mask

pub record IpNet : Type 0 where
  pub ip : Ip
  pub mask : Mask

abbrev pub is_nil : Ip → Bool
is_nil nil = true
is_nil _ = false

unfoldable pub to4 : Ip → Ip
to4 (ip4 n) = ip4 n
to4 (ip16 n) = if n / 2 ^ 32 == 0xffff then ip4 (n % 2 ^ 32) else nil
to4 nil = nil

abbrev pub to16 : Ip → Ip
to16 (ip4 n) = ip16 (0xffff * 2 ^ 32 + n)
to16 a = a

-- IPMask.Size: the ones and the length in bits.
abbrev pub size : Mask → ℕ × ℕ
size (mask4 ones) = (ones, 32)
size (mask16 ones) = (ones, 128)
size irregular = (0, 0)

-- An address with its width in bits: 32 for one that To4 knows.
pub record View : Type 0 where
  pub width : ℕ
  pub value : ℕ

abbrev pub view_as : Ip → Ip → View
view_as (ip4 n) a = record { width = 32; value = n }
view_as _ (ip16 n) = record { width = 128; value = n }
view_as _ _ = record { width = 0; value = 0 }

unfoldable pub view : Ip → View
unfolding to4
view a = view_as (to4 a) a

-- IP.Equal.
unfoldable pub ip_equal : Ip → Ip → Bool
unfolding view
ip_equal a b = (view a).width == (view b).width && (view a).value == (view b).value

-- IP.Mask of an address and a mask of the same length; the source applies it to no others.
abbrev pub mask_ip : Ip → Mask → Ip
mask_ip (ip4 n) (mask4 ones) = ip4 (n / 2 ^ (32 - ones) * 2 ^ (32 - ones))
mask_ip (ip16 n) (mask16 ones) = ip16 (n / 2 ^ (128 - ones) * 2 ^ (128 - ones))
mask_ip _ _ = nil

-- The bits of a network that an address of a width is not compared in.
unfoldable pub host_bits : Mask → ℕ → Option ℕ
host_bits (mask4 ones) width = if width == 32 then some (32 - ones) else none
host_bits (mask16 ones) width =
    if width == 32
    then some (32 - (ones - 96))
    else (if width == 128 then some (128 - ones) else none)
host_bits irregular width = none

abbrev same_network : Option ℕ → View → View → Bool
same_network none n a = a.width == 0
same_network (some h) n a = n.width == a.width && n.value / 2 ^ h == a.value / 2 ^ h

-- IPNet.Contains, for a mask that is not irregular.
unfoldable pub contains : IpNet → Ip → Bool
unfolding view host_bits
contains n a = same_network (host_bits n.mask (view n.ip).width) (view n.ip) (view a)
