-- ===== src/Routing/Compiler/Routes.antt =====
-- The routes that a compilation asks for: where each comes from, and in which order the safe ones
-- are installed.
use mathlib.Core.List.{Memᴰ}
use sysnet_linux.Base.{
  ℤ, pos, bit_and, map, sym, subst, refl, none, ◌+◌, ◌≡◌, ◌↔◌, inl, inr, true, List, [], ◌∷◌, All,
  arith, ok, Option-cases, mem-keep_if, mem-keep_if_of, mem-map_of, mem-map_cases, pos_part,
  neg_part,
}
use sysnet_linux.Base.Order.{reverse_order, compare-swap, not-gt_swap}
use sysnet_linux.Base.Sort.{mem-sort, mem-sort_of, sort-IsSorted, IsSorted}
use sysnet_linux.Net.Addr.{compare_addr-swap}
use sysnet_linux.Routing.Model.{Route, Nexthop, Snapshot}
use sysnet_linux.Routing.Config.{Config, validate, family_enabled}
use sysnet_linux.Routing.Safe.Laws.{IsSafe, classify_safe_route_iff}
use sysnet_linux.Routing.Compiler.{
  DesiredState, compile_desired_state, desired_state, safe_routes_for, is_copied, safe_table_route,
  sort_safe_routes_for_install, compare_safe_routes, route_depends_on_gateway,
  desired_nexthop_flags, intent_hop, to_word,
}

-- RTNH_F_ONLINK and RTNH_F_PERVASIVE: the flags that a copy keeps.
abbrev IsKept : ℤ → ℤ → Type 0
IsKept before after = after ≡ pos (bit_and (to_word before) 6)

-- The same nexthops in the same order, with the flags that a copy keeps.
abbrev pub HasCopiedHops : List Nexthop → List Nexthop → Type 0
HasCopiedHops [] [] = Unit
HasCopiedHops (h ∷ hs) (k ∷ ks) =
    (k.link_index ≡ h.link_index)
    × (k.gateway ≡ h.gateway)
    × IsKept h.flags k.flags
    × HasCopiedHops hs ks
HasCopiedHops _ _ = ⊥

-- `r` is `m` in the table `table`.
pub record IsCopyIn (table : ℤ) (m r : Route) : Type 0 where
  pub family : r.family ≡ m.family
  pub in_table : r.table ≡ table
  pub dst : r.dst ≡ m.dst
  pub gateway : r.gateway ≡ m.gateway
  pub preferred_source : r.preferred_source ≡ m.preferred_source
  pub link_index : r.link_index ≡ m.link_index
  pub priority : r.priority ≡ m.priority
  pub scope : r.scope ≡ m.scope
  pub flags : IsKept m.flags r.flags
  pub type : r.type ≡ m.type
  pub multipath : HasCopiedHops m.multipath r.multipath

copied_hops : (hs : List Nexthop) → HasCopiedHops hs (map intent_hop hs)
unfolding desired_nexthop_flags
copied_hops [] = tt
copied_hops (h ∷ hs) = (refl, refl, refl, copied_hops hs)

hops_of_copied : (hs ks : List Nexthop) → HasCopiedHops hs ks → ks ≡ map intent_hop hs
unfolding desired_nexthop_flags
hops_of_copied [] [] c = refl
hops_of_copied [] (k ∷ ks) c = absurd c
hops_of_copied (h ∷ hs) [] c = absurd c
hops_of_copied (h ∷ hs) (k ∷ ks) c =
    λ i. record { link_index = c.0 i; gateway = c.1 i; flags = c.2 i } ∷ hops_of_copied hs ks c.3 i

safe_table_route-IsCopyIn : (table : ℤ) (m : Route) → IsCopyIn table m (safe_table_route m table)
unfolding safe_table_route desired_nexthop_flags
safe_table_route-IsCopyIn table m = record {
  family = refl;
  in_table = refl;
  dst = refl;
  gateway = refl;
  preferred_source = refl;
  link_index = refl;
  priority = refl;
  scope = refl;
  flags = refl;
  type = refl;
  multipath = copied_hops m.multipath;
}

copy_is_safe_table_route :
    (table : ℤ) (m r : Route) → IsCopyIn table m r → r ≡ safe_table_route m table
unfolding safe_table_route desired_nexthop_flags
copy_is_safe_table_route table m r c = λ i. record {
  family = c.family i;
  table = c.in_table i;
  dst = c.dst i;
  gateway = c.gateway i;
  preferred_source = c.preferred_source i;
  link_index = c.link_index i;
  priority = c.priority i;
  scope = c.scope i;
  flags = c.flags i;
  type = c.type i;
  multipath = hops_of_copied m.multipath r.multipath c.multipath i;
}

-- A route of the safe table: the copy of a safe main-table route of a covered family.
abbrev pub IsSafeCopy : Config → Snapshot → Route → Type 0
IsSafeCopy c snapshot r =
    (m : Route) × Memᴰ m snapshot.main_routes
    × (family_enabled c.families m.family ≡ true)
    × IsSafe c.tun_index m
    × IsCopyIn c.safe_table m r

copied-IsSafe :
    (c : Config) (m : Route)
    → is_copied c m ≡ true
    → (family_enabled c.families m.family ≡ true) × IsSafe c.tun_index m
unfolding is_copied
copied-IsSafe c m h = ground (arith, classify_safe_route_iff m c.tun_index)

safe_is_copied :
    (c : Config) (m : Route)
    → family_enabled c.families m.family ≡ true
    → IsSafe c.tun_index m
    → is_copied c m ≡ true
unfolding is_copied
safe_is_copied c m h s = rw (h, (classify_safe_route_iff m c.tun_index).1 s)

safe_routes_for-mem :
    (c : Config) (snapshot : Snapshot) (r : Route)
    → Memᴰ r (safe_routes_for c snapshot.main_routes) ↔ IsSafeCopy c snapshot r
unfolding safe_routes_for sort_safe_routes_for_install
safe_routes_for-mem c snapshot r = (from, to)
  where
    from : Memᴰ r (safe_routes_for c snapshot.main_routes) → IsSafeCopy c snapshot r
    from h =
        let (m, kept, e) =
          mem-map_cases (λ route. safe_table_route route c.safe_table) _
            (mem-sort compare_safe_routes _ h) in
        let (l, t) = mem-keep_if (is_copied c) _ kept in
        let (f, s) = copied-IsSafe c m t in
        (
          m,
          l,
          f,
          s,
          subst (IsCopyIn c.safe_table m) (sym e) (safe_table_route-IsCopyIn c.safe_table m),
        )

    to : IsSafeCopy c snapshot r → Memᴰ r (safe_routes_for c snapshot.main_routes)
    to (m, l, f, s, e) = rw (copy_is_safe_table_route c.safe_table m r e) (
        mem-sort_of compare_safe_routes _ (
          mem-map_of (λ route. safe_table_route route c.safe_table)
            (mem-keep_if_of (is_copied c) _ l (safe_is_copied c m f s))))

-- The desired state of a successful compilation is that of the pure part.
pub compiled_state :
    (c : Config) (snapshot : Snapshot) {d : DesiredState}
    → compile_desired_state c snapshot ≡ ok d
    → d ≡ desired_state c snapshot
unfolding compile_desired_state
compiled_state c snapshot e = elim (Option-cases (validate c)) [
  | inl valid ↦ ground arith
  | inr (x, bad) ↦ absurd (ground arith)
]

-- A valid configuration compiles, whatever the main table holds.
pub valid_compiles :
    (c : Config) (snapshot : Snapshot)
    → validate c ≡ none
    → compile_desired_state c snapshot ≡ ok (desired_state c snapshot)
unfolding compile_desired_state
valid_compiles c snapshot valid = rw (valid, compile_desired_state) refl

-- The safe routes of a compiled state are exactly the copies, in the safe table of the configuration,
-- of the safe main-table routes of covered families; a copy has every field of its route but for the
-- table, and of the flags of the route and of its nexthops only ONLINK and PERVASIVE.
pub compiled_safe_routes :
    (c : Config) (snapshot : Snapshot) (r : Route) {d : DesiredState}
    → compile_desired_state c snapshot ≡ ok d
    → Memᴰ r d.safe_routes ↔ IsSafeCopy c snapshot r
unfolding desired_state
compiled_safe_routes c snapshot r e =
    rw (compiled_state c snapshot e) (safe_routes_for-mem c snapshot r)

-- After a route that needs a gateway come only routes that need one.
abbrev pub IsGatewayLast : List Route → Type 0
IsGatewayLast [] = Unit
IsGatewayLast (r ∷ rs) =
    (route_depends_on_gateway r ≡ true → All (λ s. route_depends_on_gateway s ≡ true) rs)
    × IsGatewayLast rs

compare_safe_routes-swap :
    (a b : Route) → compare_safe_routes b a ≡ reverse_order (compare_safe_routes a b)
unfolding compare_safe_routes
compare_safe_routes-swap a b = ground (
  arith,
  compare_addr-swap a.dst.addr b.dst.addr,
  compare-swap (pos_part a.family + neg_part b.family) (pos_part b.family + neg_part a.family),
  compare-swap a.dst.bits_plus_one b.dst.bits_plus_one,
)

sorted_by_gateway : (rs : List Route) → IsSorted compare_safe_routes rs → IsGatewayLast rs
unfolding compare_safe_routes
sorted_by_gateway [] h = tt
sorted_by_gateway (r ∷ []) h = (λ d. tt, tt)
sorted_by_gateway (r ∷ s ∷ rs) h = ground (arith, sorted_by_gateway (s ∷ rs) h.1)

-- In the safe routes of a compiled state, after a route that needs a gateway come only routes that
-- need one.
pub compiled_install_order :
    (c : Config) (snapshot : Snapshot) {d : DesiredState}
    → compile_desired_state c snapshot ≡ ok d
    → IsGatewayLast d.safe_routes
unfolding desired_state safe_routes_for sort_safe_routes_for_install
compiled_install_order c snapshot e = rw (compiled_state c snapshot e) (
    sorted_by_gateway _
      (sort-IsSorted compare_safe_routes (λ x y. not-gt_swap _ _ (compare_safe_routes-swap x y)) _))
