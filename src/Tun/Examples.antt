-- ===== src/Tun/Examples.antt =====
-- A TUN whose routes are kept in memory, in the form in which the netlink library lists them.
use Prim.Native.String.{String}
use mathlib.Core.List.{Memᴰ}
use sysnet_linux.Net.Addr.{is4, unmap}
use sysnet_linux.Net.Ip.{Ip, nil, ip4, ip16, to4, IpNet}
use sysnet_linux.Net.Prefix.{prefix_eq, prefix_eq_iff, bits}
use sysnet_linux.Routing.Unix.{af_inet, af_inet6, rt_table_main, rtn_unicast}
use sysnet_linux.Routing.Netlink.Addresses.{cidr_mask}
use sysnet_linux.Base.{
  false, Bool, ℤ, eq_ℤ, eq_ℤ_iff, ◌&&◌, ◌==◌, not, keep_if, mem-keep_if, mem-keep_if_of, ◌≢◌, sym,
  ◌∙◌, if-case, arith, Option, Result, if◌then◌else◌, ℕ, pos, ◌≡◌, refl, ap, ◌⊎◌, inl, inr, true,
  List, [], ◌∷◌, none, some, ok, ok-injective, subst,
}
use sysnet_linux.Net.Addr.{Addr}
use sysnet_linux.Net.Prefix.{Prefix, prefix_from, masked}
use sysnet_linux.System.Options.{PrefixText}
use sysnet_linux.Tun.Prefixes.{
  ip_net_from_prefix, parse_tun_route_prefixes, parse_tun_route_prefix, parse_tun_addr_prefix,
  net_ip_from_addr, prefix_from_ip_net, addr_from_ip,
}
use sysnet_linux.Tun.Config.{
  TunInfo, TunRoute, TunLink, tun_route_delete_spec, rtprot_static, tun_file_info, delete_routes,
  add_routes, set_tun_routes, netlink_route_from_prefix,
}
use sysnet_linux.Tun.Routes.{destination, IsFor, RouteLaws, set_tun_routes-IsOnly}

abbrev same_prefix : Option Prefix → Option Prefix → Bool
same_prefix none none = true
same_prefix (some p) (some q) = prefix_eq p q
same_prefix _ _ = false

same_prefix-eq : (a b : Option Prefix) → same_prefix a b ≡ true → a ≡ b
same_prefix-eq none none h = refl
same_prefix-eq none (some q) h = absurd (ground arith)
same_prefix-eq (some p) none h = absurd (ground arith)
same_prefix-eq (some p) (some q) h = ap some ((prefix_eq_iff p q).0 h)

same_prefix_self : (a : Option Prefix) → same_prefix a a ≡ true
same_prefix_self none = refl
same_prefix_self (some p) = (prefix_eq_iff p p).1 refl

-- The kernel tells routes apart by link, metric and destination.
abbrev same_key : TunRoute → TunRoute → Bool
same_key q r =
    eq_ℤ r.link_index q.link_index
    && (eq_ℤ r.priority q.priority && same_prefix (destination r) (destination q))

-- The form in which the netlink library lists a route: four bytes of an IPv4 address, and no
-- destination of a default route.
abbrev bytes : Addr → Ip
bytes (Addr.v4 n) = ip4 n
bytes (Addr.v6 n z) = ip16 n
bytes Addr.invalid = nil

abbrev net_of : Option Prefix → Option IpNet
net_of none = none
net_of (some p) =
    if bits p == 0
    then none
    else some (record { ip = bytes p.addr; mask = cidr_mask (bits p) (is4 p.addr) })

abbrev family_of : Option Prefix → ℤ
family_of (some p) = if is4 p.addr then af_inet else af_inet6
family_of none = pos 0

abbrev listed : TunRoute → TunRoute
listed q = record q { family = family_of (destination q); dst = net_of (destination q) }

abbrev drop_route : TunRoute → List TunRoute → List TunRoute
drop_route q = keep_if (λ r. not (same_key q r))

-- A route whose destination would not be listed is refused.
abbrev put_route : TunRoute → List TunRoute → Option ℕ × List TunRoute
put_route q s =
    if same_prefix (destination (listed q)) (destination q)
    then (none, listed q ∷ drop_route (listed q) s)
    else (some 22, s)

abbrev memory : TunLink
memory = record {
  addresses = record {
    State = List TunRoute;
    Failure = ℕ;
    list = λ s. (ok [], s);
    replace = λ a s. (none, s);
    delete = λ a s. (none, s);
  };
  has_file = true;
  find_link = λ s. (ok (record { name = "tun0"; index = pos 7; is_up = true }), s);
  set_mtu = λ m s. (none, s);
  set_down = λ s. (none, s);
  set_up = λ s. (none, s);
  set_name = λ t s. (none, s);
  list_routes = λ i s. (ok (keep_if (λ r. eq_ℤ r.link_index i) s), s);
  delete_route = λ r s. (none, drop_route r s);
  replace_route = put_route;
  print_net = λ n. "";
}

abbrev IsKept : ℤ → TunRoute → List TunRoute → Type 0
IsKept i r s = Memᴰ r s × (r.link_index ≡ i)

out_of :
    (i : ℤ) (s rs : List TunRoute) (r : TunRoute)
    → Path (Result ℕ (List TunRoute)) (ok (keep_if (λ x. eq_ℤ x.link_index i) s)) (ok rs)
    → IsKept i r s
    → Memᴰ r rs
out_of i s rs r e (m, k) =
    subst (λ t. Memᴰ r t) (ok-injective e)
      (mem-keep_if_of (λ x. eq_ℤ x.link_index i) s m ((eq_ℤ_iff r.link_index i).1 k))

own_key : (q : TunRoute) → same_key (tun_route_delete_spec q) q ≡ true
unfolding tun_route_delete_spec
own_key q =
    rw ((eq_ℤ_iff q.link_index q.link_index).1 refl, (eq_ℤ_iff q.priority q.priority).1 refl)
      (same_prefix_self (destination q))

dropped :
    (q : TunRoute) (s : List TunRoute) (i : ℤ) (r : TunRoute)
    → IsKept i r (drop_route (tun_route_delete_spec q) s)
    → IsKept i r s × (r ≢ q)
dropped q s i r (m, k) =
    let (l, n) = mem-keep_if (λ x. not (same_key (tun_route_delete_spec q) x)) s m in
    (
      (l, k),
      λ e.
          let t : same_key (tun_route_delete_spec q) r ≡ true =
            subst (λ x. same_key (tun_route_delete_spec q) x ≡ true) (sym e) (own_key q) in
          ground (arith, t, n),
    )

put :
    (q : TunRoute) (s : List TunRoute)
    → (put_route q s).0 ≡ none
    → (i : ℤ) (r : TunRoute) → IsKept i r (put_route q s).1
    → IsKept i r s ⊎ ((q.link_index ≡ i) × (destination r ≡ destination q))
put q s =
    if-case P (same_prefix (destination (listed q)) (destination q))
      (λ y h i r k. of (same_prefix-eq _ _ y) i r k.0 k.1) (λ _ h. absurd (ground arith))
  where
    P : Option ℕ × List TunRoute → Type 0
    P x =
        x.0 ≡ none
        → (i : ℤ) (r : TunRoute) → IsKept i r x.1
        → IsKept i r s ⊎ ((q.link_index ≡ i) × (destination r ≡ destination q))

    of :
        destination (listed q) ≡ destination q
        → (i : ℤ) (r : TunRoute) → Memᴰ r (listed q ∷ drop_route (listed q) s)
        → r.link_index ≡ i
        → IsKept i r s ⊎ ((q.link_index ≡ i) × (destination r ≡ destination q))
    of y i r (Memᴰ.head e) k = inr (sym (ap (λ t. t.link_index) e) ∙ k, ap destination e ∙ y)
    of y i r (Memᴰ.tail m) k = inl ((mem-keep_if (λ x. not (same_key (listed q) x)) s m).0, k)

memory_laws : RouteLaws memory IsKept
memory_laws = record {
  lists = λ i s rs e r m. out_of i s rs r e m;
  deletes = λ q s d i r m. dropped q s i r m;
  replaces = put;
}

abbrev texts : PrefixText
texts = record {
  parse_prefix = λ t. some (prefix_from (Addr.v4 0x0a080000) 24);
  print_prefix = λ p. "10.8.0.0/24";
  parse_addr = λ t. none;
  print_addr = λ a. "";
}

abbrev one_text : List String
one_text = "10.8.0.0/24" ∷ []

-- A default route out of the TUN, and a route out of another link.
abbrev default_route : TunRoute
default_route = record {
  link_index = pos 7;
  scope_link = true;
  family = af_inet;
  dst = none;
  protocol = rtprot_static;
  table = rt_table_main;
  route_type = rtn_unicast;
  flags = 0;
  hop_flags = [];
  gateway = nil;
  priority = pos 50;
}

abbrev before : List TunRoute
before = default_route ∷ record default_route { link_index = pos 2 } ∷ []

accepted :
    set_tun_routes memory texts one_text before
    ≡ (none, (set_tun_routes memory texts one_text before).1)
unfolding set_tun_routes tun_file_info delete_routes add_routes parse_tun_route_prefixes
    parse_tun_route_prefix parse_tun_addr_prefix netlink_route_from_prefix ip_net_from_prefix masked
    net_ip_from_addr prefix_from_ip_net addr_from_ip to4 prefix_eq unmap
accepted = refl

-- The route out of the other link stays, behind the new one.
kept_elsewhere :
    (set_tun_routes memory texts one_text before).1
    ≡ record default_route {
      dst = some (record { ip = ip4 0x0a080000; mask = cidr_mask 24 true });
      priority = pos 0;
    }
      ∷ record default_route { link_index = pos 2 }
      ∷ []
unfolding set_tun_routes tun_file_info delete_routes add_routes parse_tun_route_prefixes
    parse_tun_route_prefix parse_tun_addr_prefix netlink_route_from_prefix ip_net_from_prefix masked
    net_ip_from_addr prefix_from_ip_net addr_from_ip to4 prefix_eq unmap tun_route_delete_spec
kept_elsewhere = refl

set_tun_routes-IsOnly_example :
    (ps : List Prefix) × (parse_tun_route_prefixes texts one_text ≡ some ps)
    × (info : TunInfo) × ((tun_file_info memory before).0 ≡ ok info)
    × ((r : TunRoute)
        → IsKept info.index r (set_tun_routes memory texts one_text before).1
        → IsFor ps r)
set_tun_routes-IsOnly_example =
    set_tun_routes-IsOnly memory IsKept memory_laws texts one_text before
      (set_tun_routes memory texts one_text before).1 accepted
