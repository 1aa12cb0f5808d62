-- ===== src/Tun/Address/Examples.antt =====
-- The addresses of a TUN with an IPv4 address, an IPv6 one that is still tentative, and one that is
-- not wanted.
use mathlib.Core.List.{Memᴰ}
use sysnet_linux.Base.{ℕ, ◌^◌, ◌*◌, ◌+◌, ◌≡◌, ◌↔◌, refl, List, [], ◌∷◌, none, some, ok, All}
use sysnet_linux.Net.Addr.{Addr, no_zone, addr_eq}
use sysnet_linux.Net.Prefix.{Prefix, prefix_from, prefix_eq}
use sysnet_linux.Net.Ip.{Ip, Mask, to4}
use sysnet_linux.Tun.Prefixes.{
  NetlinkAddr, nodad, addr_from_ip, net_ip_from_addr, ip_net_from_prefix, netlink_addr_from_prefix,
  tun_addr_prefix,
}
use sysnet_linux.Tun.Prefixes.Trips.{NetlinkOf, tun_addr_prefix-netlink_addr_from_prefix}
use sysnet_linux.Tun.Address.{
  TunAddrNetlink, Change, ChangeKind, listed_from, by_prefix, delete_tun_addr_change, delete_listed,
  normalize_set_from, normalize_tun_addr_prefix_set, replace_tun_addr_change, append_replace,
  set_nodad, add_new, renew_unusable, replace_conflicts, delete_undesired, plan_changes,
  plan_tun_addr_reconciliation,
}
use sysnet_linux.Tun.Address.Apply.{set_tun_addr_prefixes, add_tun_addr_prefix}
use sysnet_linux.Tun.Address.Status.{Status, IsOther}
use sysnet_linux.Tun.Address.Normalized.{
  IsAccepted, HaveSameMembers, normalize-IsAccepted, normalize_tun_addr_prefix_set_iff,
}
use sysnet_linux.Tun.Address.Reconciled.{
  Reconciles, listed_status, plan_tun_addr_reconciliation-Reconciles,
  plan_tun_addr_reconciliation-untouched,
}
use sysnet_linux.Tun.Address.Verified.{EndsVerified, operations-EndsVerified}

abbrev unique_local : ℕ
unique_local = 0xfd00 * 2 ^ 112 + 1

-- 10.0.0.1/24 and fd00::1/64.
abbrev wanted4 : Prefix
wanted4 = prefix_from (Addr.v4 0x0a000001) 24

abbrev wanted6 : Prefix
wanted6 = prefix_from (Addr.v6 unique_local no_zone) 64

abbrev desired : List Prefix
desired = wanted4 ∷ wanted6 ∷ wanted4 ∷ []

abbrev listed4 : NetlinkAddr
listed4 = record {
  ip_net = some (record { ip = Ip.ip4 0x0a000001; mask = Mask.mask4 24 });
  flags = 0x80;
}

abbrev tentative : NetlinkAddr
tentative = record {
  ip_net = some (record { ip = Ip.ip16 unique_local; mask = Mask.mask16 64 });
  flags = 0x40;
}

abbrev unwanted : NetlinkAddr
unwanted = record {
  ip_net = some (record { ip = Ip.ip16 (unique_local + 1); mask = Mask.mask16 64 });
  flags = nodad;
}

abbrev current : List NetlinkAddr
current = listed4 ∷ tentative ∷ unwanted ∷ []

abbrev renewed : List Change
renewed =
    delete_tun_addr_change tentative
    ∷ record {
      kind = ChangeKind.tun_addr_replace;
      addr = record {
        ip_net = some (record { ip = Ip.ip16 unique_local; mask = Mask.mask16 64 });
        flags = nodad;
      };
      prefix = wanted6;
    }
    ∷ delete_tun_addr_change unwanted
    ∷ []

planned : plan_tun_addr_reconciliation current desired ≡ ok renewed
unfolding plan_tun_addr_reconciliation normalize_tun_addr_prefix_set normalize_set_from plan_changes
    set_nodad add_new renew_unusable replace_conflicts delete_undesired append_replace
    replace_tun_addr_change netlink_addr_from_prefix ip_net_from_prefix net_ip_from_addr
    delete_listed delete_tun_addr_change by_prefix listed_from tun_addr_prefix addr_from_ip to4
    prefix_eq addr_eq
planned = refl

normal : normalize_tun_addr_prefix_set desired ≡ ok (wanted4 ∷ wanted6 ∷ [])
unfolding normalize_tun_addr_prefix_set normalize_set_from prefix_eq addr_eq
normal = refl

desired-IsAccepted : IsAccepted desired
desired-IsAccepted = (normalize-IsAccepted desired (wanted4 ∷ wanted6 ∷ []) normal).0

normalize_tun_addr_prefix_set_iff_example :
    (((qs : List Prefix) × (normalize_tun_addr_prefix_set desired ≡ ok qs)) ↔ IsAccepted desired)
    × ((qs : List Prefix)
        → normalize_tun_addr_prefix_set desired ≡ ok qs
        → HaveSameMembers desired qs)
normalize_tun_addr_prefix_set_iff_example = normalize_tun_addr_prefix_set_iff desired

plan_tun_addr_reconciliation-Reconciles_example :
    (cs : List Change) × (plan_tun_addr_reconciliation current desired ≡ ok cs)
    × Reconciles current desired cs
plan_tun_addr_reconciliation-Reconciles_example =
    plan_tun_addr_reconciliation-Reconciles current desired desired-IsAccepted

listed4_in_order : listed_status current wanted4 ≡ Status.in_order
unfolding by_prefix listed_from tun_addr_prefix addr_from_ip to4 prefix_eq addr_eq
listed4_in_order = refl

plan_tun_addr_reconciliation-untouched_example : All (IsOther wanted4) renewed
plan_tun_addr_reconciliation-untouched_example =
    plan_tun_addr_reconciliation-untouched current desired renewed planned wanted4 (Memᴰ.head refl)
      listed4_in_order

tun_addr_prefix-netlink_addr_from_prefix_example :
    NetlinkOf wanted6 (netlink_addr_from_prefix wanted6)
tun_addr_prefix-netlink_addr_from_prefix_example =
    tun_addr_prefix-netlink_addr_from_prefix wanted6 refl (refl, refl)

-- A kernel that keeps the addresses as they are.
abbrev memory : TunAddrNetlink
memory = record {
  State = List NetlinkAddr;
  Failure = ℕ;
  list = λ s. (ok s, s);
  replace = λ a s. (none, s);
  delete = λ a s. (none, s);
}

operations-EndsVerified_example :
    ((ps : List Prefix)
      → set_tun_addr_prefixes memory ps (listed4 ∷ []) ≡ (none, listed4 ∷ [])
      → EndsVerified memory ps (listed4 ∷ []))
    × ((p : Prefix)
        → add_tun_addr_prefix memory p (listed4 ∷ []) ≡ (none, listed4 ∷ [])
        → EndsVerified memory (p ∷ []) (listed4 ∷ []))
operations-EndsVerified_example = operations-EndsVerified memory (listed4 ∷ []) (listed4 ∷ [])
