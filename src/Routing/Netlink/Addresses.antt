-- ===== src/Routing/Netlink/Addresses.antt =====
-- routing/adapter.go and routing/config.go: the conversions of addresses and prefixes between netip
-- and the net package.
use sysnet_linux.Base.{
  ℕ, ℤ, eq_ℤ, leb, ◌==◌, Bool, true, false, not, ◌&&◌, ◌||◌, Option, none, some, if◌then◌else◌,
}
use sysnet_linux.Net.Addr.{Addr, is_valid, is4, is6, is4in6, unmap, bit_len, no_zone}
use sysnet_linux.Net.Prefix.{Prefix, prefix_from, masked, without_zone}
use sysnet_linux.Net.Prefix
use sysnet_linux.Net.Ip.{
  Ip, nil, ip4, ip16, is_nil, to4, to16, Mask, mask4, mask16, IpNet, size, mask_ip,
}
use sysnet_linux.Routing.Unix.{af_inet, af_inet6}
use sysnet_linux.Routing.Config.{valid_preferred_source}

-- addrFromIP, with netip.AddrFromSlice.
abbrev pub addr_from_slice : Ip → Option Addr
addr_from_slice nil = none
addr_from_slice (ip4 n) = some (Addr.v4 n)
addr_from_slice (ip16 n) = some (Addr.v6 n no_zone)

unfoldable pub addr_from_ip : Ip → Option Addr
unfolding to4
addr_from_ip ip = if is_nil (to4 ip) then addr_from_slice (to16 ip) else addr_from_slice (to4 ip)

-- netIPFromAddr of routing/config.go.
unfoldable pub net_ip_from_addr : Addr → Ip
net_ip_from_addr Addr.invalid = nil
net_ip_from_addr (Addr.v4 n) = ip4 n
net_ip_from_addr (Addr.v6 n z) = ip16 n

-- netip.PrefixFrom: a length that does not fit makes the prefix invalid.
abbrev pub fitting_prefix : Addr → ℕ → Prefix
fitting_prefix a ones =
    if is_valid a && leb ones (bit_len a)
    then prefix_from a ones
    else record { addr = without_zone a; bits_plus_one = 0 }

abbrev pub prefix_of : ℕ × ℕ → Option Addr → Option Prefix
unfolding is4in6 masked unmap
prefix_of (ones, bits) none = none
prefix_of (ones, bits) (some addr) =
    let prefix = fitting_prefix (if bits == 32 then unmap addr else addr) ones in
    if not (Prefix.is_valid prefix) || is4in6 prefix.addr then none else some (masked prefix)

unfoldable pub prefix_from_ip_net : IpNet → Option Prefix
unfolding addr_from_ip prefix_of
prefix_from_ip_net network = prefix_of (size network.mask) (addr_from_ip network.ip)

-- net.CIDRMask for 32 or 128 bits.
abbrev pub cidr_mask : ℕ → Bool → Mask
cidr_mask ones true = mask4 ones
cidr_mask ones false = mask16 ones

unfoldable pub ip_net_from_prefix : Prefix → Option IpNet
unfolding is4in6 net_ip_from_addr
ip_net_from_prefix p =
    let mask = cidr_mask (Prefix.bits p) (is4 p.addr) in
    if not (Prefix.is_valid p) || is4in6 p.addr
    then none
    else some (record { ip = mask_ip (net_ip_from_addr p.addr) mask; mask = mask })

unfoldable pub prefix_matches_family : Prefix → ℤ → Bool
unfolding is4in6
prefix_matches_family p family =
    not (not (Prefix.is_valid p) || is4in6 p.addr)
    && ((eq_ℤ family af_inet && is4 p.addr) || (eq_ℤ family af_inet6 && is6 p.addr))

unfoldable pub valid_preferred_source_for_family : Addr → ℤ → Bool
unfolding valid_preferred_source
valid_preferred_source_for_family a family =
    valid_preferred_source a && ((eq_ℤ family af_inet && is4 a) || (eq_ℤ family af_inet6 && is6 a))

unfoldable pub net_ip_from_preferred_source : Addr → ℤ → Ip
unfolding valid_preferred_source_for_family net_ip_from_addr
net_ip_from_preferred_source a family =
    if not (valid_preferred_source_for_family a family) then nil else net_ip_from_addr a
