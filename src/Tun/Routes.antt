-- ===== src/Tun/Routes.antt =====
-- SetTunRoutes of tun/config.go: which routes go through the TUN afterwards.
use Prim.Native.String.{String}
use mathlib.Core.List.{Memᴰ}
use sysnet_linux.Base.{
  ◌≡◌, refl, sym, ap, ◌∙◌, ◌≢◌, ◌⊎◌, inl, inr, ℤ, pos, List, [], ◌∷◌, Option, none, some, Result,
  ok, err, arith, subst,
}
use sysnet_linux.Net.Prefix.{Prefix, masked}
use sysnet_linux.Net.Ip.{IpNet}
use sysnet_linux.System.Options.{PrefixText}
use sysnet_linux.Tun.Prefixes.{prefix_from_ip_net, ip_net_from_prefix, parse_tun_route_prefixes}
use sysnet_linux.Tun.Config.{
  TunInfo, TunRoute, TunLink, RouteFailure, no_such_route, other_failure, TunError, Failed, Answer,
  route_to, netlink_route_from_prefix, tun_route_delete_spec, tun_file_info, with_info_of, deleted,
  delete_routes, replaced, add_routes, switch_routes, set_parsed_routes, set_tun_routes, or_error,
}

abbrev pub destination : TunRoute → Option Prefix
destination r = prefix_from_ip_net r.dst r.family

-- The destination is that of a route sent for one of the prefixes.
abbrev pub IsFor : List Prefix → TunRoute → Type 0
IsFor ps r =
    (p : Prefix) × Memᴰ p ps
    × (destination r ≡ prefix_from_ip_net (ip_net_from_prefix (masked p)) (pos 0))

module _ (l : TunLink) where
  open l.addresses use {State, Failure}

  -- An answer of RouteDel after which the route is gone.
  abbrev pub IsDeleted : Option (RouteFailure Failure) → Type 0
  IsDeleted o = (o ≡ none) ⊎ (o ≡ some no_such_route)

  -- The main-table routes out of each link, in the form in which they are listed: a listing for a link
  -- has all routes out of it and changes none, a deletion by what was listed that succeeds or finds
  -- none takes the route away and adds none, and a replacement that succeeds adds at most one route,
  -- out of its link and to its destination, which may be written in another way.
  pub record RouteLaws (IsRouted : ℤ → TunRoute → State → Type 0) : Type 0 where
    pub lists :
        (i : ℤ) (s : State) (rs : List TunRoute)
        → (l.list_routes i s).0 ≡ ok rs
        → (r : TunRoute) → IsRouted i r (l.list_routes i s).1
        → Memᴰ r rs
    pub deletes :
        (q : TunRoute) (s : State)
        → IsDeleted (l.delete_route (tun_route_delete_spec q) s).0
        → (i : ℤ) (r : TunRoute) → IsRouted i r (l.delete_route (tun_route_delete_spec q) s).1
        → IsRouted i r s × (r ≢ q)
    pub replaces :
        (q : TunRoute) (s : State)
        → (l.replace_route q s).0 ≡ none
        → (i : ℤ) (r : TunRoute) → IsRouted i r (l.replace_route q s).1
        → IsRouted i r s ⊎ ((q.link_index ≡ i) × (destination r ≡ destination q))

  module _ (IsRouted : ℤ → TunRoute → State → Type 0) (laws : RouteLaws IsRouted) (i : ℤ) where
    -- Every route of `t` that is not one of `s` outside `rs` is for one of the prefixes.
    abbrev IsOnly : List TunRoute → List Prefix → State → State → Type 0
    IsOnly rs ps s t =
        (r : TunRoute) → IsRouted i r t → (IsRouted i r s × (Memᴰ r rs → ⊥)) ⊎ IsFor ps r

    weaken : (p : Prefix) (ps : List Prefix) (r : TunRoute) → IsFor ps r → IsFor (p ∷ ps) r
    weaken p ps r (q, m, e) = (q, Memᴰ.tail m, e)

    route_dst :
        (index : ℤ) (p : Prefix) (q : TunRoute)
        → netlink_route_from_prefix index p ≡ some q
        → destination q ≡ prefix_from_ip_net (ip_net_from_prefix (masked p)) (pos 0)
    unfolding netlink_route_from_prefix
    route_dst index p q h = of (ip_net_from_prefix (masked p)) h
      where
        of :
            (o : Option IpNet)
            → route_to index o ≡ some q
            → destination q ≡ prefix_from_ip_net o (pos 0)
        of none k = absurd (ground arith)
        of (some n) k = sym (ap (λ x. elim x [ some y ↦ destination y | none ↦ destination q ]) k)

    add_routes-IsOnly :
        (index : ℤ) (ps : List Prefix) (s t : State)
        → add_routes l index ps s ≡ (none, t)
        → IsOnly [] ps s t
    unfolding add_routes
    add_routes-IsOnly index [] s t h =
        λ r k. inl (subst (IsRouted i r) (sym (ap (λ x. x.1) h)) k, λ m. elim m [ ])
    add_routes-IsOnly index (p ∷ ps) s t h =
        first (netlink_route_from_prefix index p) refl h (λ u. add_routes-IsOnly index ps u t)
      where
        second :
            (q : TunRoute)
            → netlink_route_from_prefix index p ≡ some q
            → (o : Option Failure × State) → l.replace_route q s ≡ o
            → or_error l TunError.routes_failed (add_routes l index ps) o ≡ (none, t)
            → ((u : State) → add_routes l index ps u ≡ (none, t) → IsOnly [] ps u t)
            → IsOnly [] (p ∷ ps) s t
        second q e (some x, u) f k ih = absurd (ground (arith, ap (λ x. x.0) k))
        second q e (none, u) f k ih = λ r m. elim (ih u k r m) [
          | inr k ↦ inr (weaken p ps r k)
          | inl (k, _) ↦
              elim (laws.replaces q s (ap (λ x. x.0) f) i r
                (subst (IsRouted i r) (sym (ap (λ x. x.1) f)) k)) [
                  | inl j ↦ inl (j, λ z. elim z [ ])
                  | inr (z, d) ↦ inr (p, Memᴰ.head refl, d ∙ route_dst index p q e)
                ]
        ]

        first :
            (o : Option TunRoute)
            → netlink_route_from_prefix index p ≡ o
            → replaced l (add_routes l index ps) o s ≡ (none, t)
            → ((u : State) → add_routes l index ps u ≡ (none, t) → IsOnly [] ps u t)
            → IsOnly [] (p ∷ ps) s t
        first none e k ih = absurd (ground (arith, ap (λ x. x.0) k))
        first (some q) e k ih = second q e (l.replace_route q s) refl k ih

    delete_routes-IsOnly :
        (rs : List TunRoute) (ps : List Prefix) (next : State → Failed l) (s t : State)
        → ((u : State) → next u ≡ (none, t) → IsOnly [] ps u t)
        → delete_routes l rs next s ≡ (none, t)
        → IsOnly rs ps s t
    unfolding delete_routes
    delete_routes-IsOnly [] ps next s t h k = h s k
    delete_routes-IsOnly (q ∷ rs) ps next s t h k =
        of (l.delete_route (tun_route_delete_spec q) s) refl k
          (λ u. delete_routes-IsOnly rs ps next u t h)
      where
        after :
            (o : Option (RouteFailure Failure)) (u : State)
            → l.delete_route (tun_route_delete_spec q) s ≡ (o, u)
            → IsDeleted o
            → IsOnly rs ps u t
            → IsOnly (q ∷ rs) ps s t
        after o u f d ih r m = elim (ih r m) [
          | inr k ↦ inr k
          | inl (k, n) ↦
              let (j, x) =
                laws.deletes q s (subst IsDeleted (sym (ap (λ x. x.0) f)) d) i r
                  (subst (IsRouted i r) (sym (ap (λ x. x.1) f)) k) in
              inl (j, λ z. elim z [ Memᴰ.head e ↦ x e | Memᴰ.tail y ↦ n y ])
        ]

        of :
            (o : Option (RouteFailure Failure) × State)
            → l.delete_route (tun_route_delete_spec q) s ≡ o
            → deleted l (delete_routes l rs next) o ≡ (none, t)
            → ((u : State) → delete_routes l rs next u ≡ (none, t) → IsOnly rs ps u t)
            → IsOnly (q ∷ rs) ps s t
        of (none, u) f k ih = after none u f (inl refl) (ih u k)
        of (some no_such_route, u) f k ih = after (some no_such_route) u f (inr refl) (ih u k)
        of (some (other_failure e), u) f k ih = absurd (ground (arith, ap (λ x. x.0) k))

    listed_only :
        (ps : List Prefix) (u t : State) (o : Result Failure (List TunRoute) × State)
        → l.list_routes i u ≡ o
        → switch_routes l i ps o ≡ (none, t)
        → (r : TunRoute) → IsRouted i r t
        → IsFor ps r
    listed_only ps u t (err e, v) f k r m = absurd (ground (arith, ap (λ x. x.0) k))
    listed_only ps u t (ok rs, v) f k r m =
        elim (delete_routes-IsOnly rs ps (add_routes l i ps) v t (λ w. add_routes-IsOnly i ps w t) k
          r m) [
            | inr j ↦ j
            | inl (j, n) ↦ absurd (
                n (
                  laws.lists i u rs (ap (λ x. x.0) f) r
                    (subst (IsRouted i r) (sym (ap (λ x. x.1) f)) j)))
          ]

  -- When SetTunRoutes returns no error, then its texts are prefixes, the link of the TUN was found, and
  -- every main-table route out of that link has the destination that the code sends for one of the
  -- prefixes, masked; provided that a listing for a link has all routes out of it, a deletion of a
  -- listed route that succeeds or finds none takes it away and adds none, and a replacement adds at
  -- most a route out of its link to its destination, in whatever form the library lists that.
  pub set_tun_routes-IsOnly :
      (IsRouted : ℤ → TunRoute → State → Type 0)
      → RouteLaws IsRouted
      → (x : PrefixText) (routes : List String) (s t : State)
      → set_tun_routes l x routes s ≡ (none, t)
      → (ps : List Prefix) × (parse_tun_route_prefixes x routes ≡ some ps)
        × (info : TunInfo) × ((tun_file_info l s).0 ≡ ok info)
        × ((r : TunRoute) → IsRouted info.index r t → IsFor ps r)
  unfolding set_tun_routes
  set_tun_routes-IsOnly IsRouted laws x routes s t h = found (tun_file_info l s) refl h
    where
      parsed :
          (o : Option (List Prefix)) (i : TunInfo) (u : State)
          → set_parsed_routes l o i u ≡ (none, t)
          → (ps : List Prefix) × (o ≡ some ps)
            × ((r : TunRoute) → IsRouted i.index r t → IsFor ps r)
      parsed none i u k = absurd (ground (arith, ap (λ x. x.0) k))
      parsed (some ps) i u k =
          (ps, refl, listed_only IsRouted laws i.index ps u t (l.list_routes i.index u) refl k)

      found :
          (o : Answer l TunInfo)
          → tun_file_info l s ≡ o
          → with_info_of l (set_parsed_routes l (parse_tun_route_prefixes x routes)) o ≡ (none, t)
          → (ps : List Prefix) × (parse_tun_route_prefixes x routes ≡ some ps)
            × (info : TunInfo) × ((tun_file_info l s).0 ≡ ok info)
            × ((r : TunRoute) → IsRouted info.index r t → IsFor ps r)
      found (err e, u) f k = absurd (ground (arith, ap (λ x. x.0) k))
      found (ok i, u) f k =
          let (ps, e, only) = parsed (parse_tun_route_prefixes x routes) i u k in
          (ps, e, i, ap (λ y. y.0) f, only)
