-- ===== src/Subnet/Disjoint.antt =====
-- A subnet that the filter lets through shares no address with a local network.
use mathlib.Core.List.{Memᴰ}
use native.Mathlib.Nat.{pow-suc, div-div-eq-div-mul}
use sysnet_linux.Base.{
  ℕ, ◌+◌, ◌-◌, ◌/◌, ◌^◌, ◌≤◌, ◌==◌, ◌≡◌, ◌≢◌, leb, refl, sym, ap, subst, suc, zero, ◌∙◌,
  Option-cases, inl, inr, Bool, true, false, List, [], ◌∷◌, Option, some, ok, any, any-false,
  any-true, arith, Bool-cases,
}
use sysnet_linux.Net.Ip.{
  Ip, nil, ip4, ip16, IpNet, is_nil, to4, view, contains, host_bits, ip_equal,
}
use sysnet_linux.Subnet.{
  NetAddr, addr_ip_net, normalize_ip, uses_ip, wrap_dynamic_ip_filter, SystemNetworks,
  new_system_networks, normalize_ip_net, same_family, overlap, meets_ip, meets_network,
  ignored_broad_overlap_network, uses_subnet, wrap_dynamic_subnet_filter, wrap_subnet_filter,
}

-- Numbers that agree above some bits agree above more.
one_more : (x h : ℕ) → x / 2 ^ suc h ≡ x / 2 ^ h / 2
one_more x h = ap (λ d. x / d) (pow-suc 2 h) ∙ sym (div-div-eq-div-mul x (2 ^ h) 2)

agree_more : (x y h j : ℕ) → x / 2 ^ h ≡ y / 2 ^ h → x / 2 ^ (j + h) ≡ y / 2 ^ (j + h)
agree_more x y h zero e = subst (λ b. x / 2 ^ b ≡ y / 2 ^ b) (omega arith) e
agree_more x y h (suc j) e =
    subst (λ b. x / 2 ^ b ≡ y / 2 ^ b) (omega arith)
      (one_more x (j + h) ∙ ap (λ q. q / 2) (agree_more x y h j e) ∙ sym (one_more y (j + h)))

agree_above : (x y h k : ℕ) → h ≤ k → x / 2 ^ h ≡ y / 2 ^ h → x / 2 ^ k ≡ y / 2 ^ k
agree_above x y h k l e =
    subst (λ b. x / 2 ^ b ≡ y / 2 ^ b) (omega arith) (agree_more x y h (k - h) e)

widths_family :
    (a b : Ip)
    → is_nil a ≡ false
    → is_nil b ≡ false
    → (view a).width ≡ (view b).width
    → same_family a b ≡ true
unfolding view same_family
widths_family nil b m n e = absurd (ground arith)
widths_family (ip4 x) nil m n e = absurd (ground arith)
widths_family (ip4 x) (ip4 y) m n e = ground arith
widths_family (ip4 x) (ip16 y) m n e = ground arith
widths_family (ip16 x) nil m n e = absurd (ground arith)
widths_family (ip16 x) (ip4 y) m n e = ground arith
widths_family (ip16 x) (ip16 y) m n e = ground arith

has_width : (a : Ip) → is_nil a ≡ false → (view a).width ≢ 0
unfolding view
has_width nil v = absurd (ground arith)
has_width (ip4 n) v = ground arith
has_width (ip16 n) v = ground arith

-- The ways in which a network contains an address that is not nil.
contained :
    (n : IpNet) (a : Ip)
    → is_nil a ≡ false
    → contains n a ≡ true
    → (h : ℕ) × (host_bits n.mask (view n.ip).width ≡ some h)
      × ((view n.ip).width ≡ (view a).width)
      × ((view n.ip).value / 2 ^ h ≡ (view a).value / 2 ^ h)
unfolding contains
contained n a v c = elim (Option-cases (host_bits n.mask (view n.ip).width)) [
  | inl e ↦ absurd (ground (arith, rw e at c, has_width a v))
  | inr (h, e) ↦ (h, e, ground (arith, rw e at c), ground (arith, rw e at c))
]

container :
    (n : IpNet) (a : Ip) (h : ℕ)
    → host_bits n.mask (view n.ip).width ≡ some h
    → (view n.ip).width ≡ (view a).width
    → (view n.ip).value / 2 ^ h ≡ (view a).value / 2 ^ h
    → contains n a ≡ true
unfolding contains
container n a h e w d = rw e (ground arith)

not_nil : (a : Ip) → (view a).width ≢ 0 → is_nil a ≡ false
unfolding view
not_nil nil n = absurd (ground arith)
not_nil (ip4 x) n = refl
not_nil (ip16 x) n = refl

-- Two networks that share an address overlap.
common_overlap :
    (m n : IpNet) (a : Ip)
    → is_nil a ≡ false
    → contains m a ≡ true
    → contains n a ≡ true
    → overlap m n ≡ true
unfolding overlap
common_overlap m n a v c d =
    let (h, e, w, x) = contained m a v c in
    let (k, f, u, y) = contained n a v d in
    rw
      (widths_family m.ip n.ip (not_nil m.ip (rw w (has_width a v)))
        (not_nil n.ip (rw u (has_width a v))) (w ∙ sym u))
      (elim (Bool-cases (leb k h)) [
        | inl l ↦
            rw
              (container m n.ip h e (w ∙ sym u)
                (x ∙ sym (agree_above (view n.ip).value (view a).value k h (ground arith) y)))
              refl
        | inr l ↦ ground (
          arith,
          container n m.ip k f (u ∙ sym w)
              (y ∙ sym (agree_above (view m.ip).value (view a).value h k (ground arith) x)),
        )
      ])

-- What a filter that lets the candidate through has tested.
passed :
    (s : SystemNetworks) (filter : Option (IpNet → Bool)) (candidate m : IpNet)
    → wrap_subnet_filter filter s candidate ≡ true
    → normalize_ip_net candidate ≡ some m
    → (any (meets_ip m) s.ips ≡ false) × (any (meets_network m) s.networks ≡ false)
unfolding wrap_subnet_filter uses_subnet
passed s filter candidate m h e = ground arith

-- Each address of the host that addrIPNet reads is among the system's.
collected :
    (addrs : List NetAddr) (x : NetAddr) (b : Ip) (n : IpNet)
    → Memᴰ x addrs
    → addr_ip_net x ≡ some (b, n)
    → Memᴰ b (new_system_networks addrs).ips × Memᴰ n (new_system_networks addrs).networks
unfolding new_system_networks
collected [] x b n m e = elim m [ ]
collected (y ∷ ys) x b n (Memᴰ.head p) e =
    rw (sym p ∙ refl) (rw (e, new_system_networks) (Memᴰ.head refl, Memᴰ.head refl))
collected (y ∷ ys) x b n (Memᴰ.tail k) e = elim (Option-cases (addr_ip_net y)) [
  | inl f ↦ rw (f, new_system_networks) (collected ys x b n k e)
  | inr (c, f) ↦
      rw (f, new_system_networks)
        (Memᴰ.tail (collected ys x b n k e).0, Memᴰ.tail (collected ys x b n k e).1)
]

-- When the addresses of the host are known, a candidate that the subnet filter lets through shares
-- no address with a network of the host that has at least eight leading ones: an address of the
-- normalized candidate is not one of the network.
pub wrap_dynamic_subnet_filter-disjoint :
    (E : Type 0) (filter : Option (IpNet → Bool)) (addrs : List NetAddr) (candidate m : IpNet)
    (x : NetAddr) (b : Ip) (n : IpNet) (a : Ip)
    → wrap_dynamic_subnet_filter {E = E} filter (some (ok addrs)) candidate ≡ true
    → normalize_ip_net candidate ≡ some m
    → Memᴰ x addrs
    → addr_ip_net x ≡ some (b, n)
    → ignored_broad_overlap_network n ≡ false
    → is_nil a ≡ false
    → contains m a ≡ true
    → contains n a ≡ false
unfolding wrap_dynamic_subnet_filter meets_network
wrap_dynamic_subnet_filter-disjoint E filter addrs candidate m x b n a h e k r broad v c =
    let (i, f) = passed (new_system_networks addrs) filter candidate m h e in
    elim (Bool-cases (contains n a)) [
      | inr d ↦ d
      | inl d ↦ absurd (
          ground (
            arith,
            common_overlap m n a v c d,
            any-false (meets_network m) (new_system_networks addrs).networks f
                (collected addrs x b n k r).1,
          ))
    ]

normalize_ip-view : (a : Ip) → is_nil a ≡ false → view (normalize_ip a) ≡ view a
unfolding view normalize_ip
normalize_ip-view nil v = absurd (ground arith)
normalize_ip-view (ip4 n) v = refl
normalize_ip-view (ip16 n) v = elim (Bool-cases (n / 2 ^ 32 == 0xffff)) [
  | inl e ↦ rw e refl
  | inr e ↦ rw (e, e) refl
]

normalize_ip-not_nil : (a : Ip) → is_nil a ≡ false → is_nil (normalize_ip a) ≡ false
unfolding to4 normalize_ip
normalize_ip-not_nil nil v = absurd (ground arith)
normalize_ip-not_nil (ip4 n) v = refl
normalize_ip-not_nil (ip16 n) v = ground arith

-- When the addresses of the host are known, the filter rejects each address that one of them is
-- equal to, also as an IPv4 address that is written as an IPv6 one.
wrap_dynamic_ip_filter-host :
    (E : Type 0) (filter : Option (Ip → Bool)) (addrs : List NetAddr) (x : NetAddr) (b : Ip)
    (n : IpNet) (a : Ip)
    → Memᴰ x addrs
    → addr_ip_net x ≡ some (b, n)
    → is_nil a ≡ false
    → ip_equal b a ≡ true
    → wrap_dynamic_ip_filter {E = E} filter (some (ok addrs)) a ≡ false
unfolding wrap_dynamic_ip_filter uses_ip ip_equal
wrap_dynamic_ip_filter-host E filter addrs x b n a k r v q =
    rw
      (
        normalize_ip-not_nil a v,
        any-true (λ l. ip_equal l (normalize_ip a)) (new_system_networks addrs).ips
            (collected addrs x b n k r).0 (rw (normalize_ip-view a v) q),
      )
      refl
