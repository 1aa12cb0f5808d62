-- ===== src/Tun/Prefixes.antt =====
-- tun/config.go: the conversions of prefixes between netip and the types of the netlink library, the
-- parsing of lists of prefixes, and NormalizeMTU.
pub mod Trips
use Prim.Native.String.{String}
use sysnet_linux.Base.{
  ℕ, ◌+◌, ◌*◌, ◌^◌, ◌==◌, ltb, ℤ, pos, negsuc, eq_ℤ, Bool, true, false, not, List, [], ◌∷◌, Option,
  none, some, Result, ok, err, if◌then◌else◌, ltb_ℤ,
}
use sysnet_linux.Net.Addr.{Addr, is4, is6, bit_len, unmap, no_zone}
use sysnet_linux.Net.Prefix.{Prefix, prefix_from, is_valid, bits, masked}
use sysnet_linux.Net.Ip.{Ip, nil, ip4, ip16, is_nil, to4, Mask, IpNet, size}
use sysnet_linux.Routing.Unix.{af_inet, af_inet6, rt_table_main, rtn_unicast}
use sysnet_linux.Routing.Netlink.Addresses.{addr_from_slice, cidr_mask, fitting_prefix}
use sysnet_linux.System.Options.{PrefixText}

-- IFA_F_NODAD, and IFA_F_TENTATIVE with IFA_F_DADFAILED, of golang.org/x/sys/unix.
abbrev pub nodad : ℕ
nodad = 0x02

abbrev pub unusable_ipv6_addr_flags : ℕ
unusable_ipv6_addr_flags = 0x48

-- The fields of netlink.Addr that the code reads or sets.
pub record NetlinkAddr : Type 0 where
  pub ip_net : Option IpNet
  pub flags : ℕ

abbrev pub default_tun_mtu : ℤ
default_tun_mtu = pos 1420

abbrev pub min_tun_mtu : ℤ
min_tun_mtu = pos 576

unfoldable pub normalize_mtu : ℤ → ℤ
normalize_mtu mtu = if ltb_ℤ mtu min_tun_mtu then default_tun_mtu else mtu

unfoldable pub addr_from_ip : Ip → Option Addr
addr_from_ip ip = if is_nil (to4 ip) then addr_from_slice ip else addr_from_slice (to4 ip)

-- netIPFromAddr; net.IPv4 makes sixteen bytes.
unfoldable pub net_ip_from_addr : Addr → Ip
net_ip_from_addr Addr.invalid = nil
net_ip_from_addr (Addr.v4 n) = ip16 (0xffff * 2 ^ 32 + n)
net_ip_from_addr (Addr.v6 n z) = ip16 n

unfoldable pub ip_net_from_prefix : Prefix → Option IpNet
ip_net_from_prefix p =
    if not (is_valid p)
    then none
    else some (record { ip = net_ip_from_addr p.addr; mask = cidr_mask (bits p) (is4 p.addr) })

abbrev pub with_flags : ℕ → Option IpNet → Option NetlinkAddr
with_flags f none = none
with_flags f (some n) = some (record { ip_net = some n; flags = f })

unfoldable pub netlink_addr_from_prefix : Prefix → Option NetlinkAddr
netlink_addr_from_prefix p = with_flags (if is6 p.addr then nodad else 0) (ip_net_from_prefix p)

-- tunAddrPrefix of tun/address_linux.go.
abbrev pub sized_prefix : ℕ × ℕ → Option Addr → Option Prefix
sized_prefix (ones, width) none = none
sized_prefix (ones, width) (some ip) =
    if not (bit_len ip == width) then none else some (prefix_from ip ones)

abbrev pub network_prefix : Option IpNet → Option Prefix
network_prefix none = none
network_prefix (some n) = sized_prefix (size n.mask) (addr_from_ip n.ip)

unfoldable pub tun_addr_prefix : NetlinkAddr → Option Prefix
tun_addr_prefix a = network_prefix a.ip_net

-- prefixFromIPNet.
abbrev pub everything : ℤ → Option Prefix
everything family =
    if eq_ℤ family af_inet
    then some (prefix_from (Addr.v4 0) 0)
    else (if eq_ℤ family af_inet6 then some (prefix_from (Addr.v6 0 no_zone) 0) else none)

abbrev pub masked_prefix : ℕ × ℕ → Option Addr → Option Prefix
masked_prefix (ones, width) none = none
masked_prefix (ones, width) (some addr) =
    some (masked (fitting_prefix (if width == 32 then unmap addr else addr) ones))

unfoldable pub prefix_from_ip_net : Option IpNet → ℤ → Option Prefix
prefix_from_ip_net none family = everything family
prefix_from_ip_net (some n) family = masked_prefix (size n.mask) (addr_from_ip n.ip)

module _ (x : PrefixText) where
  -- netip.PrefixFrom(addr, 32 or 128), of an address that was parsed.
  abbrev pub host_prefix : Option Addr → Option Prefix
  host_prefix none = none
  host_prefix (some addr) = some (fitting_prefix addr (if is4 addr then 32 else 128))

  abbrev pub prefix_or_host : String → Option Prefix → Option Prefix
  prefix_or_host value (some p) = some p
  prefix_or_host value none = host_prefix (x.parse_addr value)

  unfoldable pub parse_tun_addr_prefix : String → Option Prefix
  parse_tun_addr_prefix value = prefix_or_host value (x.parse_prefix value)

  abbrev pub masked_of : Option Prefix → Option Prefix
  masked_of none = none
  masked_of (some p) = some (masked p)

  unfoldable pub parse_tun_route_prefix : String → Option Prefix
  parse_tun_route_prefix value = masked_of (parse_tun_addr_prefix value)

  -- The loops of parseTunAddrPrefixes and parseTunRoutePrefixes.
  abbrev pub parsed_then : Option Prefix → Option (List Prefix) → Option (List Prefix)
  parsed_then none rest = none
  parsed_then (some p) none = none
  parsed_then (some p) (some ps) = some (p ∷ ps)

  unfoldable pub parse_tun_addr_prefixes : List String → Option (List Prefix)
  parse_tun_addr_prefixes [] = some []
  parse_tun_addr_prefixes (value ∷ values) =
      parsed_then (parse_tun_addr_prefix value) (parse_tun_addr_prefixes values)

  unfoldable pub parse_tun_route_prefixes : List String → Option (List Prefix)
  parse_tun_route_prefixes [] = some []
  parse_tun_route_prefixes (value ∷ values) =
      parsed_then (parse_tun_route_prefix value) (parse_tun_route_prefixes values)
