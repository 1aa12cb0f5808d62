-- ===== src/Subnet.antt =====
-- subnet/system.go and subnet/allocator.go: the filters that keep an allocator off the address space
-- of the host. The allocator itself is gonnect's and calls the filters on its candidates.
pub mod Disjoint
mod Examples
use sysnet_linux.Base.{
  ℕ, ◌-◌, ◌==◌, ltb, Bool, true, false, not, ◌&&◌, ◌||◌, List, [], ◌∷◌, Option, none, some, Result,
  ok, err, any, if◌then◌else◌,
}
use sysnet_linux.Net.Ip.{
  Ip, nil, ip4, ip16, Mask, mask4, mask16, irregular, IpNet, is_nil, to4, to16, size, mask_ip,
  ip_equal, contains,
}

-- A net.Addr, by the dynamic type that addrIPNet looks for; the pointers may be nil.
pub data NetAddr : Type 0 where
  ip_net : Option IpNet → NetAddr
  ip_addr : Option Ip → NetAddr
  other_addr : NetAddr

pub record SystemNetworks : Type 0 where
  pub ips : List Ip
  pub networks : List IpNet

unfoldable pub normalize_ip : Ip → Ip
normalize_ip a = if is_nil (to4 a) then to16 a else to4 a

abbrev of_length : Mask → Ip → Ip
of_length (mask4 _) a = to4 a
of_length (mask16 _) a = to16 a
of_length irregular a = nil

-- normalizeIPNet of a network that is not nil.
unfoldable pub normalize_ip_net : IpNet → Option IpNet
normalize_ip_net n =
    let a = of_length n.mask n.ip in
    if is_nil a then none else some (record { ip = mask_ip a n.mask; mask = n.mask })

abbrev paired : Ip → IpNet → Option (Ip × IpNet)
paired a n = if is_nil a then none else some (a, n)

abbrev host_net : Ip → Option (Ip × IpNet)
host_net a =
    if is_nil a
    then none
    else some (a, record { ip = a; mask = if is_nil (to4 a) then mask16 128 else mask4 32 })

-- addrIPNet.
unfoldable pub addr_ip_net : NetAddr → Option (Ip × IpNet)
unfolding normalize_ip normalize_ip_net
addr_ip_net (ip_net none) = none
addr_ip_net (ip_net (some n)) = elim (normalize_ip_net n) [
  | none ↦ none
  | some m ↦ paired (normalize_ip n.ip) m
]
addr_ip_net (ip_addr none) = none
addr_ip_net (ip_addr (some a)) = host_net (normalize_ip a)
addr_ip_net other_addr = none

abbrev add_system : Option (Ip × IpNet) → SystemNetworks → SystemNetworks
add_system none s = s
add_system (some (a, n)) s = record { ips = a ∷ s.ips; networks = n ∷ s.networks }

unfoldable pub new_system_networks : List NetAddr → SystemNetworks
unfolding addr_ip_net
new_system_networks [] = record { ips = []; networks = [] }
new_system_networks (a ∷ as_) = add_system (addr_ip_net a) (new_system_networks as_)

unfoldable pub uses_ip : SystemNetworks → Ip → Bool
unfolding normalize_ip ip_equal
uses_ip s a =
    if is_nil (normalize_ip a) then false else any (λ l. ip_equal l (normalize_ip a)) s.ips

unfoldable pub same_family : Ip → Ip → Bool
same_family a b = if is_nil (to4 a) then is_nil (to4 b) else not (is_nil (to4 b))

unfoldable pub ignored_broad_overlap_network : IpNet → Bool
ignored_broad_overlap_network n = ltb (size n.mask).0 8

unfoldable pub same_subnet : IpNet → IpNet → Bool
unfolding ip_equal
same_subnet a b =
    (size a.mask).1 == (size b.mask).1 && (size a.mask).0 == (size b.mask).0 && ip_equal a.ip b.ip

unfoldable pub overlap : IpNet → IpNet → Bool
unfolding same_family contains
overlap a b = same_family a.ip b.ip && (contains a b.ip || contains b a.ip)

-- The two loops of usesSubnet, for a normalized candidate.
unfoldable pub meets_ip : IpNet → Ip → Bool
unfolding same_family contains
meets_ip candidate l = same_family candidate.ip l && contains candidate l

unfoldable pub meets_network : IpNet → IpNet → Bool
unfolding same_subnet ignored_broad_overlap_network overlap
meets_network candidate l =
    same_subnet candidate l || (not (ignored_broad_overlap_network l) && overlap candidate l)

unfoldable pub uses_normalized : SystemNetworks → Option IpNet → Bool
unfolding meets_ip meets_network
uses_normalized s none = false
uses_normalized s (some candidate) =
    any (meets_ip candidate) s.ips || any (meets_network candidate) s.networks

unfoldable pub uses_subnet : SystemNetworks → IpNet → Bool
unfolding uses_normalized normalize_ip_net
uses_subnet s candidate = uses_normalized s (normalize_ip_net candidate)

-- `filter == nil || filter(x)`.
unfoldable pub allowed {ℓ} : {A : Type ℓ} → Option (A → Bool) → A → Bool
allowed none x = true
allowed (some filter) x = filter x

unfoldable pub wrap_ip_filter : Option (Ip → Bool) → SystemNetworks → Ip → Bool
unfolding uses_ip allowed
wrap_ip_filter filter s a = if uses_ip s a then false else allowed filter a

unfoldable pub wrap_subnet_filter : Option (IpNet → Bool) → SystemNetworks → IpNet → Bool
unfolding uses_subnet allowed
wrap_subnet_filter filter s n = if uses_subnet s n then false else allowed filter n

-- What the provider answers at one candidate: `none` when there is no provider.
unfoldable pub current_system_networks :
    {E : Type 0} → Option (Result E (List NetAddr)) → Option SystemNetworks
unfolding new_system_networks
current_system_networks none = none
current_system_networks (some (err e)) = none
current_system_networks (some (ok addrs)) = some (new_system_networks addrs)

unfoldable pub wrap_dynamic_ip_filter :
    {E : Type 0} → Option (Ip → Bool) → Option (Result E (List NetAddr)) → Ip → Bool
unfolding wrap_ip_filter current_system_networks allowed
wrap_dynamic_ip_filter filter answer a = elim (current_system_networks answer) [
  | none ↦ allowed filter a
  | some s ↦ wrap_ip_filter filter s a
]

unfoldable pub wrap_dynamic_subnet_filter :
    {E : Type 0} → Option (IpNet → Bool) → Option (Result E (List NetAddr)) → IpNet → Bool
unfolding wrap_subnet_filter current_system_networks allowed
wrap_dynamic_subnet_filter filter answer n = elim (current_system_networks answer) [
  | none ↦ allowed filter n
  | some s ↦ wrap_subnet_filter filter s n
]
