-- ===== src/System/Live/InSync.antt =====
-- The updates of the default TUN in sysnet.go, over a Manager of routing/manager.go: the Manager and
-- the record of the TUN have the same routing configuration.
use Prim.Native.String.{String}
use text.Mathlib.Text.{◌==◌ as str_eq}
use sysnet_linux.Base.{
  All, ◌≡◌, refl, sym, ap, ◌⊎◌, inl, inr, List, [], ◌∷◌, ◌++◌, Option, none, some, Result, ok, err,
  any, subst, Bool-cases,
}
use sysnet_linux.Net.Addr.{Addr, addr_eq}
use sysnet_linux.Routing.Config.{Config}
use sysnet_linux.Routing.Adapter.{Adapter}
use sysnet_linux.Routing.Manager.Steps.{each_join}
use sysnet_linux.Routing.Manager.{Manager, apply, rollback, sweep}
use sysnet_linux.Routing.Manager
use sysnet_linux.Routing.Manager.Outcomes.{Installs, apply-Installs}
use sysnet_linux.System.Options.{PrefixText, ResultOf}
use sysnet_linux.System.Updates.{
  Host, Restoring, restore_link, restore_routing, set_or_add, clear_main, apply_addrs, record_addrs,
  read_addrs, read_routes, update_from, apply_routes, record_routes, routes_from, TunState,
  UpdateError, failed, Outcome, set_default_tun_routing_families, validate_default_tun_source_addrs,
  fail, or_fail, got, checked, with_config, switch_addrs, normalized, update_default_tun_addrs,
  set_default_tun_addrs, add_default_tun_addr, switch_routes, set_default_tun_routes,
}
use sysnet_linux.Tun.Config.{TunLink}
use sysnet_linux.System.Live.{SharedKernel, Live, Failure, in_manager, live, manager_failed}
use sysnet_linux.System.Live.Restored.{
  HasApplied, KeepsManager, in_tun-manager, read_in_tun-manager, restored-manager, Ends,
  restored-Ends,
}

abbrev pub AgreesWith : Option Config → Manager → Type 0
AgreesWith none m = Unit
AgreesWith (some c) m = HasApplied c m

abbrev pub IsNotRestored : {E : Type 0} → UpdateError E → Type 0
IsNotRestored (failed e (x ∷ xs)) = Unit
IsNotRestored _ = ⊥

module _ (l : TunLink) (a : Adapter) (v : SharedKernel l a) (x : PrefixText) where
  abbrev host : Host
  host = live l a v x

  abbrev State : Type 0
  State = Live l a v

  -- What holds after an update: the Manager agrees with the record, or the restoration failed too
  -- and the Manager has nothing applied.
  abbrev pub Agrees : Outcome x host → Type 0
  Agrees (none, st, s) = AgreesWith st.routing_config s.manager
  Agrees (some e, st, s) =
      AgreesWith st.routing_config s.manager ⊎ ((s.manager.applied ≡ none) × IsNotRestored e)

  module _ (old : Config) where
    module _ (st : TunState) (same : st.routing_config ≡ some old) where
      agrees : (m : Manager) → HasApplied old m → AgreesWith st.routing_config m
      agrees m h = subst (λ c. AgreesWith c m) (sym same) h

      -- A failure before Apply is restored by operations on the link only.
      or_fail-link :
          (back : Restoring x host) (next : State → Outcome x host)
          → All (KeepsManager l a v x) back
          → ((s : State) → HasApplied old s.manager → Agrees (next s))
          → (r : Option (Failure l a v) × State) → HasApplied old r.1.manager
          → Agrees (or_fail x host st back next r)
      unfolding fail
      or_fail-link back next k n (none, s) h = n s h
      or_fail-link back next k n (some e, s) h =
          inl (agrees _ (subst (HasApplied old) (sym (restored-manager l a v x back k s)) h))

      ended-Agrees :
          (e : Failure l a v) (r : List (Failure l a v) × State)
          → Ends l a v x old r
          → Agrees (some (failed e r.0), st, r.1)
      ended-Agrees e ([], s) h = inl (agrees s.manager h)
      ended-Agrees e (y ∷ ys, s) (inl h) = inl (agrees s.manager h)
      ended-Agrees e (y ∷ ys, s) (inr h) = inr (h, tt)

      -- A failure of Apply leaves the Manager as it was, and what follows ends with Apply.
      or_fail-apply :
          (back : Restoring x host) (new : Config) (next : State → Outcome x host)
          → All (KeepsManager l a v x) back
          → ((s : State) → HasApplied new s.manager → Agrees (next s))
          → (s : State) → HasApplied old s.manager
          → Agrees
              (or_fail x host st (back ++ restore_routing x host old new) next (host.apply new s))
      unfolding fail
      or_fail-apply back new next k n s h =
          of (apply a new s.manager (v.routing_view s.kernel))
            (apply-Installs a new s.manager (v.routing_view s.kernel))
        where
          of :
              (r : Manager.Outcome a)
              → Installs a s.manager new r
              → Agrees (
                  or_fail x host st
                    (back ++ restore_routing x host old new)
                    next
                    (in_manager l a v s r))
          of (none, m, t) (snapshot, d, c, e) =
              n (in_manager l a v s (none, m, t)).1 (snapshot, d, c, ap (λ y. y.applied) e)
          of (some e, m, t) i =
              let s' : State = (in_manager l a v s (some e, m, t)).1 in
              ended-Agrees (manager_failed e)
                (each_join (λ f. f) (back ++ restore_routing x host old new) s')
                (restored-Ends l a v x old back new k s' (inl (subst (HasApplied old) (sym i) h)))

      got-Agrees :
          (next : List String → State → Outcome x host)
          → ((r : List String) (s : State) → HasApplied old s.manager → Agrees (next r s))
          → (r : Result (Failure l a v) (List String) × State) → HasApplied old r.1.manager
          → Agrees (got x host st next r)
      got-Agrees next k (ok r, s) h = k r s h
      got-Agrees next k (err e, s) h = inl (agrees s.manager h)

      set_or_add-manager :
          (addrs : List String) (added : Option String)
          → KeepsManager l a v x (set_or_add x host addrs added)
      set_or_add-manager addrs none s = in_tun-manager l a v x s _
      set_or_add-manager addrs (some t) s = elim (Bool-cases (str_eq t "")) [
        | inl e ↦ rw e (in_tun-manager l a v x s _)
        | inr e ↦ rw e (in_tun-manager l a v x s _)
      ]

      link_keeps :
          (addrs routes : List String)
          → All (KeepsManager l a v x) (restore_link x host addrs routes)
      link_keeps addrs routes =
          (λ s. in_tun-manager l a v x s _, (λ s. in_tun-manager l a v x s _, tt))

      in_tun-applied :
          (s : State) (f : State → Option (Failure l a v) × State)
          → KeepsManager l a v x f
          → HasApplied old s.manager
          → HasApplied old (f s).1.manager
      in_tun-applied s f k h = subst (HasApplied old) (sym (k s)) h

      switch_addrs-Agrees :
          (addrs : List String) (added : Option String) (old_addrs old_routes : List String)
          (s : State)
          → HasApplied old s.manager
          → Agrees (switch_addrs x host st old addrs added old_addrs old_routes s)
      unfolding switch_addrs
      switch_addrs-Agrees addrs added old_addrs old_routes s h =
          let new = set_default_tun_routing_families x addrs st.routes old in
          let back = restore_link x host old_addrs old_routes in
          or_fail-link back (clear_main x host st old new addrs back)
            (link_keeps old_addrs old_routes)
            (λ s1 h1.
              or_fail-link back (apply_addrs x host st old new addrs back)
                (link_keeps old_addrs old_routes)
                (or_fail-apply back new (record_addrs x host st new addrs)
                  (link_keeps old_addrs old_routes) (λ s3 h3. h3))
                (host.set_tun_routes [] s1)
                (in_tun-applied s1 (host.set_tun_routes []) (λ s2. in_tun-manager l a v x s2 _) h1))
            (set_or_add x host addrs added s)
            (in_tun-applied s (set_or_add x host addrs added) (set_or_add-manager addrs added) h)

      update_from-Agrees :
          (addrs : List String) (added : Option String) (s : State)
          → HasApplied old s.manager
          → Agrees (update_from x host st addrs added old s)
      update_from-Agrees addrs added s h =
          of (validate_default_tun_source_addrs x addrs old.source_routes)
        where
          read :
              (f : State → Result (Failure l a v) (List String) × State)
              → ((t : State) → (f t).1.manager ≡ t.manager)
              → (t : State) → HasApplied old t.manager
              → HasApplied old (f t).1.manager
          read f k t g = subst (HasApplied old) (sym (k t)) g

          of :
              (o : Option (UpdateError (Failure l a v)))
              → Agrees (checked x host st o (read_addrs x host st old addrs added) s)
          of (some e) = inl (agrees s.manager h)
          of none =
              got-Agrees (read_routes x host st old addrs added)
                (λ old_addrs s1 h1.
                  got-Agrees (switch_addrs x host st old addrs added old_addrs)
                    (switch_addrs-Agrees addrs added old_addrs) (host.get_tun_routes s1)
                    (read host.get_tun_routes (λ t. read_in_tun-manager l a v x t _) s1 h1))
                (host.get_tun_addrs s)
                (read host.get_tun_addrs (λ t. read_in_tun-manager l a v x t _) s h)

      routes_from-Agrees :
          (routes : List String) (s : State)
          → HasApplied old s.manager
          → Agrees (routes_from x host st routes old s)
      unfolding switch_routes
      routes_from-Agrees routes s h =
          let new = set_default_tun_routing_families x st.addrs routes old in
          got-Agrees (switch_routes x host st old routes)
            (λ old_routes s1 h1.
              let back = host.set_tun_routes old_routes ∷ [] in
              let kept : All (KeepsManager l a v x) back = (λ t. in_tun-manager l a v x t _, tt) in
              or_fail-link back (apply_routes x host st old new routes back) kept
                (or_fail-apply back new (record_routes x host st new routes) kept (λ s3 h3. h3))
                (host.set_tun_routes [] s1)
                (in_tun-applied s1 (host.set_tun_routes []) (λ t. in_tun-manager l a v x t _) h1))
            (host.get_tun_routes s)
            (subst (HasApplied old) (sym (read_in_tun-manager l a v x s _)) h)

  update-Agrees :
      (addrs : List String) (added : Option String) (st : TunState) (s : State)
      → AgreesWith st.routing_config s.manager
      → Agrees (update_default_tun_addrs x host addrs added st s)
  unfolding update_default_tun_addrs
  update-Agrees addrs added st s h = from st.routing_config refl h
    where
      from :
          (rc : Option Config)
          → st.routing_config ≡ rc
          → AgreesWith rc s.manager
          → Agrees (with_config x host st rc (update_from x host st addrs added) s)
      from none e k = inl h
      from (some old) e k = update_from-Agrees old st e addrs added s k

  normalized-Agrees :
      (added : Option String) (st : TunState) (r : ResultOf (List String × Addr)) (s : State)
      → AgreesWith st.routing_config s.manager
      → Agrees (normalized x host added st r s)
  normalized-Agrees added st (err e) s h = inl h
  normalized-Agrees added st (ok (addrs, dns_ip)) s h =
      elim (Bool-cases (addr_eq dns_ip st.dns_ip)) [
        | inl e ↦ rw e (update-Agrees addrs added st s h)
        | inr e ↦ rw e (inl h)
      ]

  routes-Agrees :
      (routes : List String) (st : TunState) (s : State)
      → AgreesWith st.routing_config s.manager
      → Agrees (set_default_tun_routes x host routes st s)
  unfolding set_default_tun_routes
  routes-Agrees routes st s h = from st.routing_config refl h
    where
      from :
          (rc : Option Config)
          → st.routing_config ≡ rc
          → AgreesWith rc s.manager
          → Agrees (with_config x host st rc (routes_from x host st routes) s)
      from none e k = inl h
      from (some old) e k = routes_from-Agrees old st e routes s k

  -- When the Manager has applied the routing configuration that the record of the TUN has, if any,
  -- each of the three updates, whatever fails in it, leaves the Manager with the configuration
  -- applied that the record then has, or reports that the restoration failed too and leaves the
  -- Manager with nothing applied.
  pub updates-Agrees :
      (cidr : String) (st : TunState) (s : State)
      → AgreesWith st.routing_config s.manager
      → ((addrs : List String) → Agrees (set_default_tun_addrs x host cidr addrs st s))
        × ((addr : String) → Agrees (add_default_tun_addr x host cidr addr st s))
        × ((routes : List String) → Agrees (set_default_tun_routes x host routes st s))
  unfolding set_default_tun_addrs add_default_tun_addr
  updates-Agrees cidr st s h = (
    λ addrs. normalized-Agrees none st _ s h,
    λ addr. (elim (Bool-cases (any (str_eq addr) st.addrs)) [
      | inl e ↦ rw e h
      | inr e ↦ rw e (normalized-Agrees (some addr) st _ s h)
    ]),
    λ routes. routes-Agrees routes st s h,
  )
