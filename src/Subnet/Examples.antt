-- ===== src/Subnet/Examples.antt =====
-- The theorems on the subnet filters, used at concrete networks.
use mathlib.Core.List.{Memᴰ}
use sysnet_linux.Base.{ℕ, ◌+◌, ◌*◌, ◌^◌, ◌≡◌, refl, true, false, [], ◌∷◌, none, some, ok}
use sysnet_linux.Net.Ip.{Ip, ip4, ip16, IpNet, mask4, contains, ip_equal, to4}
use sysnet_linux.Subnet.{
  NetAddr, ip_net, addr_ip_net, normalize_ip_net, ignored_broad_overlap_network,
  wrap_dynamic_subnet_filter,
}
use sysnet_linux.Subnet.Disjoint.{wrap_dynamic_subnet_filter-disjoint}

-- The address 10.a.0.b.
abbrev private_ip : ℕ → ℕ → Ip
private_ip a b = ip4 (10 * 2 ^ 24 + a * 2 ^ 16 + b)

abbrev lan : NetAddr
lan = ip_net (some (record { ip = private_ip 1 5; mask = mask4 16 }))

abbrev lan_network : IpNet
lan_network = record { ip = private_ip 1 0; mask = mask4 16 }

abbrev candidate : IpNet
candidate = record { ip = private_ip 2 0; mask = mask4 24 }

lan_read : addr_ip_net lan ≡ some (private_ip 1 5, lan_network)
unfolding addr_ip_net to4
lan_read = refl

candidate_normal : normalize_ip_net candidate ≡ some candidate
unfolding normalize_ip_net to4
candidate_normal = refl

candidate_passes :
    wrap_dynamic_subnet_filter {E = Unit} none (some (ok (lan ∷ []))) candidate ≡ true
unfolding wrap_dynamic_subnet_filter
candidate_passes = refl

lan_narrow : ignored_broad_overlap_network lan_network ≡ false
unfolding ignored_broad_overlap_network
lan_narrow = refl

candidate-contains : contains candidate (private_ip 2 9) ≡ true
unfolding contains
candidate-contains = refl

own_address : ip_equal (private_ip 1 5) (ip16 (0xffff * 2 ^ 32 + 10 * 2 ^ 24 + 2 ^ 16 + 5)) ≡ true
unfolding ip_equal
own_address = refl

wrap_dynamic_subnet_filter-disjoint_example : contains lan_network (private_ip 2 9) ≡ false
wrap_dynamic_subnet_filter-disjoint_example =
    wrap_dynamic_subnet_filter-disjoint Unit none (lan ∷ []) candidate candidate lan
      (private_ip 1 5) lan_network (private_ip 2 9) candidate_passes candidate_normal
      (Memᴰ.head refl) lan_read lan_narrow refl candidate-contains
