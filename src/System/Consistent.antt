-- ===== src/System/Consistent.antt =====
-- When the record of the default TUN in sysnet.go is consistent, and that new families keep it so.
use Prim.Native.String.{String}
use sysnet_linux.Base.{
  ◌≡◌, refl, sym, subst, inl, inr, ◌⊎◌, true, List, [], ◌∷◌, ◌++◌, Option, none, some, ok, any, All,
  arith, Bool-cases, Option-cases, Result-cases,
}
use sysnet_linux.Net.Addr.{Addr, addr_eq}
use sysnet_linux.Routing.Model.{SourceRoute}
use sysnet_linux.Routing.Config.{
  Config, FamilySet, Strictness, strict, non_strict, strictness_other, effective_tunnel_families,
}
use sysnet_linux.Routing.Config.Sources.{IsValidSource}
use sysnet_linux.Routing.Config.Valid.{IsValidConfig}
use sysnet_linux.System.Options.{PrefixText, assigned_addrs, families_of, or_both, route_families}
use sysnet_linux.System.Families.{assigned-Covered, enabled, effective_or_both, or_both_some}
use sysnet_linux.System.Built.{Covered-valid}
use sysnet_linux.System.Updates.{
  TunState, UpdateError, families_for, removed_source, set_default_tun_routing_families,
  validate_default_tun_source_addrs,
}

module _ (x : PrefixText) where
  -- The sources are addresses of the TUN.
  abbrev SourcesAssigned : List Addr → List SourceRoute → Type 0
  SourcesAssigned assigned = All (λ r. any (addr_eq r.source) assigned ≡ true)

  abbrev pub HasSources : List String → List SourceRoute → Type 0
  HasSources addrs rs =
      (assigned : List Addr) × (assigned_addrs x addrs ≡ ok assigned) × SourcesAssigned assigned rs

  abbrev pub ConsistentWith : List String → Option Config → Type 0
  ConsistentWith addrs none = Unit
  ConsistentWith addrs (some c) = IsValidConfig c × HasSources addrs c.source_routes

  -- Once the TUN has a routing configuration, it is valid, and its sources are addresses of the TUN.
  abbrev pub IsConsistent : TunState → Type 0
  IsConsistent st = ConsistentWith st.addrs st.routing_config

  carried_again :
      (addrs routes : List String) (assigned : List Addr) (old : FamilySet) (rs : List SourceRoute)
      → assigned_addrs x addrs ≡ ok assigned
      → SourcesAssigned assigned rs
      → All (IsValidSource old) rs
      → All (IsValidSource (or_both x (families_of x (addrs ++ routes)))) rs
  carried_again addrs routes assigned old [] e a v = tt
  carried_again addrs routes assigned old (r ∷ rs) e a v = (
    record {
      destination_valid = v.0.destination_valid;
      destination_plain = v.0.destination_plain;
      destination_masked = v.0.destination_masked;
      source_valid = v.0.source_valid;
      same_family = v.0.same_family;
      carried =
          enabled x r.source (families_of x (addrs ++ routes))
            (Covered-valid x r.source v.0.source_valid)
            (assigned-Covered x r.source addrs routes assigned e a.0);
    },
    carried_again addrs routes assigned old rs e a.1 v.1,
  )

  covering_for :
      (s : Strictness) (f : FamilySet)
      → (f.ipv4 ≡ true) ⊎ (f.ipv6 ≡ true)
      → (((families_for s f).ipv4 ≡ true) ⊎ ((families_for s f).ipv6 ≡ true))
        × (f.ipv4 ≡ true → (families_for s f).ipv4 ≡ true)
        × (f.ipv6 ≡ true → (families_for s f).ipv6 ≡ true)
  covering_for strict f h = (inl refl, λ a. refl, λ a. refl)
  covering_for non_strict f h = (h, λ a. a, λ a. a)
  covering_for (strictness_other n) f h = (h, λ a. a, λ a. a)

  -- New families keep a configuration valid, as long as the sources are assigned.
  pub set_families-IsValidConfig :
      (addrs routes : List String) (c : Config)
      → IsValidConfig c
      → HasSources addrs c.source_routes
      → IsValidConfig (set_default_tun_routing_families x addrs routes c)
  unfolding set_default_tun_routing_families route_families
  set_families-IsValidConfig addrs routes c v (assigned, e, a) =
      let f = families_of x (addrs ++ routes) in
      let k = covering_for c.strictness (or_both x f) (or_both_some x f) in
      record {
        tun = v.tun;
        vpn = v.vpn;
        safe = v.safe;
        differ = v.differ;
        base_positive = v.base_positive;
        span_wide = v.span_wide;
        below_builtin = v.below_builtin;
        app_mask = v.app_mask;
        user_mask = v.user_mask;
        apart = v.apart;
        mode_known = v.mode_known;
        strictness_known = v.strictness_known;
        some_family = k.0;
        tunnel4 = k.1;
        tunnel6 = k.2;
        sources =
            subst (λ tunnel. All (IsValidSource tunnel) c.source_routes)
              (sym (effective_or_both x (set_default_tun_routing_families x addrs routes c) f refl))
              (carried_again addrs routes assigned (effective_tunnel_families c) c.source_routes e a
                v.sources);
        distinct = v.distinct;
      }

  none_removed :
      (assigned : List Addr) (rs : List SourceRoute)
      → removed_source assigned rs ≡ none
      → SourcesAssigned assigned rs
  none_removed assigned [] h = tt
  none_removed assigned (r ∷ rs) h = elim (Bool-cases (any (addr_eq r.source) assigned)) [
    | inl e ↦ (e, none_removed assigned rs (rw e at h))
    | inr e ↦ absurd (ground arith)
  ]

  pub validated-HasSources :
      {E : Type 0} (addrs : List String) (rs : List SourceRoute)
      → Path (Option (UpdateError E)) (validate_default_tun_source_addrs x addrs rs) none
      → HasSources addrs rs
  unfolding validate_default_tun_source_addrs
  validated-HasSources addrs rs h = elim (Result-cases (assigned_addrs x addrs)) [
    | inr (e, q) ↦ absurd (refused (rw q at h))
    | inl (assigned, q) ↦ elim (Option-cases (removed_source assigned rs)) [
      | inr (a, r) ↦ absurd (refused (rw (q, r) at h))
      | inl r ↦ (assigned, q, none_removed assigned rs r)
    ]
  ]
    where
      refused : {E : Type 0} {e : UpdateError E} → Path (Option (UpdateError E)) (some e) none → ⊥
      refused k = ground arith
