-- ===== src/System/Settled.antt =====
-- The updates of the default TUN in sysnet.go keep its record consistent.
use Prim.Native.String.{String}
use text.Mathlib.Text.{◌==◌ as str_eq}
use sysnet_linux.Base.{
  ◌≡◌, refl, inl, inr, List, [], ◌∷◌, ◌++◌, Option, none, some, Result, ok, err, any, Bool-cases,
}
use sysnet_linux.Net.Addr.{Addr, addr_eq}
use sysnet_linux.Routing.Config.{Config}
use sysnet_linux.Routing.Config.Valid.{IsValidConfig}
use sysnet_linux.System.Options.{PrefixText, ResultOf}
use sysnet_linux.System.Updates.{
  Restoring, restore_link, restore_routing, set_or_add, clear_main, apply_addrs, record_addrs,
  read_addrs, read_routes, update_from, apply_routes, record_routes, routes_from, Host, TunState,
  UpdateError, Outcome, set_default_tun_routing_families, validate_default_tun_source_addrs, fail,
  or_fail, got, checked, with_config, switch_addrs, normalized, update_default_tun_addrs,
  set_default_tun_addrs, add_default_tun_addr, switch_routes, set_default_tun_routes,
}
use sysnet_linux.System.Consistent.{
  IsConsistent, ConsistentWith, HasSources, set_families-IsValidConfig, validated-HasSources,
}

module _ (x : PrefixText) where
  module _ (h : Host) where
    open h use {State, Failure}

    -- An error leaves the record as it was, and a success leaves it consistent.
    abbrev pub Settles : TunState → Outcome x h → Type 0
    Settles st (some e, st', s) = st' ≡ st
    Settles st (none, st', s) = IsConsistent x st'

    or_fail-Settles :
        (st : TunState) (back : Restoring x h) (next : State → Outcome x h)
        → ((s : State) → Settles st (next s))
        → (r : Option Failure × State) → Settles st (or_fail x h st back next r)
    unfolding fail
    or_fail-Settles st back next k (none, s) = k s
    or_fail-Settles st back next k (some e, s) = refl

    got-Settles :
        (st : TunState) (next : List String → State → Outcome x h)
        → ((r : List String) (s : State) → Settles st (next r s))
        → (r : Result Failure (List String) × State) → Settles st (got x h st next r)
    got-Settles st next k (ok r, s) = k r s
    got-Settles st next k (err e, s) = refl

    checked-Settles :
        (st : TunState) (o : Option (UpdateError Failure)) (next : State → Outcome x h) (s : State)
        → (o ≡ none → (t : State) → Settles st (next t))
        → Settles st (checked x h st o next s)
    checked-Settles st none next s k = k refl s
    checked-Settles st (some e) next s k = refl

    module _ (st : TunState) (old : Config) (valid : IsValidConfig old) where
      record_addrs-Settles :
          (addrs : List String) (s : State)
          → HasSources x addrs old.source_routes
          → Settles st
              (record_addrs x h st (set_default_tun_routing_families x addrs st.routes old) addrs s)
      unfolding set_default_tun_routing_families
      record_addrs-Settles addrs s k = (set_families-IsValidConfig x addrs st.routes old valid k, k)

      switch_addrs-Settles :
          (addrs : List String) (added : Option String) (old_addrs old_routes : List String)
          (s : State)
          → HasSources x addrs old.source_routes
          → Settles st (switch_addrs x h st old addrs added old_addrs old_routes s)
      unfolding switch_addrs
      switch_addrs-Settles addrs added old_addrs old_routes s k =
          let new = set_default_tun_routing_families x addrs st.routes old in
          let back = restore_link x h old_addrs old_routes in
          or_fail-Settles st back (clear_main x h st old new addrs back)
            (λ s1.
              or_fail-Settles st back (apply_addrs x h st old new addrs back)
                (λ s2.
                  or_fail-Settles st (back ++ restore_routing x h old new)
                    (record_addrs x h st new addrs) (λ s3. record_addrs-Settles addrs s3 k)
                    (h.apply new s2))
                (h.set_tun_routes [] s1))
            (set_or_add x h addrs added s)

      update_from-Settles :
          (addrs : List String) (added : Option String) (s : State)
          → Settles st (update_from x h st addrs added old s)
      update_from-Settles addrs added s =
          checked-Settles st (validate_default_tun_source_addrs x addrs old.source_routes)
            (read_addrs x h st old addrs added) s
            (λ q t.
              got-Settles st (read_routes x h st old addrs added)
                (λ old_addrs s1.
                  got-Settles st (switch_addrs x h st old addrs added old_addrs)
                    (λ old_routes s2.
                      switch_addrs-Settles addrs added old_addrs old_routes s2
                        (validated-HasSources x addrs old.source_routes q))
                    (h.get_tun_routes s1))
                (h.get_tun_addrs t))

      routes_from-Settles :
          (routes : List String) (s : State)
          → HasSources x st.addrs old.source_routes
          → Settles st (routes_from x h st routes old s)
      unfolding switch_routes set_default_tun_routing_families
      routes_from-Settles routes s k =
          let new = set_default_tun_routing_families x st.addrs routes old in
          got-Settles st (switch_routes x h st old routes)
            (λ old_routes s1.
              let back = h.set_tun_routes old_routes ∷ [] in
              or_fail-Settles st back (apply_routes x h st old new routes back)
                (λ s2.
                  or_fail-Settles st (back ++ restore_routing x h old new)
                    (record_routes x h st new routes)
                    (λ s3. (set_families-IsValidConfig x st.addrs routes old valid k, k))
                    (h.apply new s2))
                (h.set_tun_routes [] s1))
            (h.get_tun_routes s)

    update-Settles :
        (addrs : List String) (added : Option String) (st : TunState) (s : State)
        → IsConsistent x st
        → Settles st (update_default_tun_addrs x h addrs added st s)
    unfolding update_default_tun_addrs
    update-Settles addrs added st s c = from st.routing_config c
      where
        from :
            (rc : Option Config)
            → ConsistentWith x st.addrs rc
            → Settles st (with_config x h st rc (update_from x h st addrs added) s)
        from none c = refl
        from (some old) c = update_from-Settles st old c.0 addrs added s

    normalized-Settles :
        (added : Option String) (st : TunState) (r : ResultOf (List String × Addr)) (s : State)
        → IsConsistent x st
        → Settles st (normalized x h added st r s)
    normalized-Settles added st (err e) s c = refl
    normalized-Settles added st (ok (addrs, dns_ip)) s c =
        elim (Bool-cases (addr_eq dns_ip st.dns_ip)) [
          | inl e ↦ rw e (update-Settles addrs added st s c)
          | inr e ↦ rw e refl
        ]

    routes-Settles :
        (routes : List String) (st : TunState) (s : State)
        → IsConsistent x st
        → Settles st (set_default_tun_routes x h routes st s)
    unfolding set_default_tun_routes
    routes-Settles routes st s c = from st.routing_config c
      where
        from :
            (rc : Option Config)
            → ConsistentWith x st.addrs rc
            → Settles st (with_config x h st rc (routes_from x h st routes) s)
        from none c = refl
        from (some old) c = routes_from-Settles st old c.0 routes s c.1

    -- From a consistent record, whose routing configuration, if any, is valid and has only sources
    -- that are addresses of the TUN, each of the three updates leaves the record as it was if it
    -- fails, and a consistent record if it succeeds.
    pub updates-Settles :
        (cidr : String) (st : TunState) (s : State)
        → IsConsistent x st
        → ((addrs : List String) → Settles st (set_default_tun_addrs x h cidr addrs st s))
          × ((addr : String) → Settles st (add_default_tun_addr x h cidr addr st s))
          × ((routes : List String) → Settles st (set_default_tun_routes x h routes st s))
    unfolding set_default_tun_addrs add_default_tun_addr
    updates-Settles cidr st s c = (
      λ addrs. normalized-Settles none st _ s c,
      λ addr. (elim (Bool-cases (any (str_eq addr) st.addrs)) [
        | inl e ↦ rw e c
        | inr e ↦ rw e (normalized-Settles (some addr) st _ s c)
      ]),
      λ routes. routes-Settles routes st s c,
    )
