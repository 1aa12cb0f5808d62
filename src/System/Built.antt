-- ===== src/System/Built.antt =====
-- default_tun.go: the routing configuration of BuildDefaultTun, which Config.validate of
-- routing/config.go accepts.
use Prim.Native.String.{String}
use sysnet_linux.Base.{
  Option, none, some, ℕ, ℤ, pos, ◌<ℤ◌, ◌≡◌, refl, sym, subst, inl, inr, ◌⊎◌, Bool, true, false,
  List, [], ◌∷◌, ◌++◌, none, ok, err, ok-injective, All, arith, Result-cases, if◌then◌else◌,
}
use sysnet_linux.Net.Addr.{Addr, is_valid}
use sysnet_linux.Routing.Model.{SourceRoute}
use sysnet_linux.Routing.Config.{
  Config, both_families, default_config, mode_include, mode_exclude, strict, non_strict,
  valid_preferred_source, validate,
}
use sysnet_linux.Routing.Config.Sources.{IsValidSource, HasDistinctDestinations}
use sysnet_linux.Routing.Config.Valid.{validate_iff}
use sysnet_linux.System.Options.{
  PrefixText, ResultOf, assigned_addrs, normalize_from, families_of, route_families, or_both,
}
use sysnet_linux.System.Families.{
  assigned-Covered, enabled, effective_or_both, or_both_some, covering,
}
use sysnet_linux.System.Sources.{conflict, IsNormal, normalize_from-Normalized}

-- The marks of a System.
pub record Marks : Type 0 where
  pub app_bypass_mark : ℕ
  pub app_bypass_mask : ℕ
  pub user_mark : ℕ
  pub user_mark_mask : ℕ

abbrev with_marks : Marks → Config → Config
with_marks m c = record c {
  app_bypass_mark = m.app_bypass_mark;
  app_bypass_mask = m.app_bypass_mask;
  user_mark = m.user_mark;
  user_mark_mask = m.user_mark_mask;
}

-- The configuration by which NewSystem validates its marks.
unfoldable pub probe_config : Marks → Config
probe_config m = with_marks m (record default_config { tun_index = pos 1 })

module _ (x : PrefixText) where
  -- normalizeTunSourceRoutes; none is a nil slice.
  abbrev normalize_assigned : List SourceRoute → ResultOf (List Addr) → ResultOf (List SourceRoute)
  normalize_assigned routes (err e) = err e
  normalize_assigned routes (ok assigned) = normalize_from assigned 0 [] routes

  unfoldable pub normalize_tun_source_routes :
      List String → Option (List SourceRoute) → ResultOf (List SourceRoute)
  normalize_tun_source_routes tun_addrs none = ok []
  normalize_tun_source_routes tun_addrs (some routes) =
      normalize_assigned routes (assigned_addrs x tun_addrs)

  -- The configuration `rc` of BuildDefaultTun: `include` says that opts.Include is not empty.
  unfoldable pub default_tun_config :
      Marks → ℤ → List String → List String → List SourceRoute → Bool → Bool → Config
  unfolding route_families
  default_tun_config m index addrs routes source_routes include strictly =
      let tunnel = route_families x addrs routes in
      with_marks m (record default_config {
        tun_index = index;
        tunnel_families = tunnel;
        families = if strictly then both_families else tunnel;
        source_routes = source_routes;
        mode = if include then mode_include else mode_exclude;
        strictness = if strictly then strict else non_strict;
      })

  pub Covered-valid : (a : Addr) → valid_preferred_source a ≡ true → is_valid a ≡ true
  unfolding valid_preferred_source
  Covered-valid a h = ground arith

  normal-IsValidSource :
      (addrs routes : List String) (assigned : List Addr) (out : List SourceRoute)
      → assigned_addrs x addrs ≡ ok assigned
      → All (IsNormal assigned) out
      → All (IsValidSource (or_both x (families_of x (addrs ++ routes)))) out
  normal-IsValidSource addrs routes assigned [] e n = tt
  normal-IsValidSource addrs routes assigned (r ∷ out) e n = (
    record {
      destination_valid = n.0.destination_valid;
      destination_plain = n.0.destination_plain;
      destination_masked = n.0.destination_masked;
      source_valid = n.0.source_valid;
      same_family = n.0.same_family;
      carried =
          enabled x r.source (families_of x (addrs ++ routes))
            (Covered-valid r.source n.0.source_valid)
            (assigned-Covered x r.source addrs routes assigned e n.0.source_assigned);
    },
    normal-IsValidSource addrs routes assigned out e n.1,
  )

  normalized_sources :
      (addrs routes : List String) (rs : Option (List SourceRoute)) (out : List SourceRoute)
      → normalize_tun_source_routes addrs rs ≡ ok out
      → All (IsValidSource (or_both x (families_of x (addrs ++ routes)))) out
        × HasDistinctDestinations out
  unfolding normalize_tun_source_routes
  normalized_sources addrs routes none out h =
      subst
        (λ o.
          All (IsValidSource (or_both x (families_of x (addrs ++ routes)))) o
          × HasDistinctDestinations o)
        (ok-injective h) (tt, tt)
  normalized_sources addrs routes (some rs) out h = elim (Result-cases (assigned_addrs x addrs)) [
    | inr (e, q) ↦ absurd (conflict (rw (q, normalize_tun_source_routes) at h))
    | inl (assigned, q) ↦
        let (n, d, u) =
          normalize_from-Normalized assigned 0 [] rs out
            (rw (q, normalize_tun_source_routes) at h) in
        (normal-IsValidSource addrs routes assigned out q n, d)
  ]

  mode_cases :
      (include : Bool)
      → ((if include then mode_include else mode_exclude) ≡ mode_exclude)
        ⊎ ((if include then mode_include else mode_exclude) ≡ mode_include)
  mode_cases true = inr refl
  mode_cases false = inl refl

  strictness_cases :
      (strictly : Bool)
      → ((if strictly then strict else non_strict) ≡ strict)
        ⊎ ((if strictly then strict else non_strict) ≡ non_strict)
  strictness_cases true = inl refl
  strictness_cases false = inr refl

  -- When NewSystem accepts the marks, and the index of the TUN is positive, and the source routes
  -- are those that normalizeTunSourceRoutes makes for the addresses of the TUN, then for any routes,
  -- mode and strictness, Config.validate accepts the configuration that BuildDefaultTun applies.
  pub default_tun_config_valid :
      (m : Marks) (index : ℤ) (addrs routes : List String) (rs : Option (List SourceRoute))
      (out : List SourceRoute) (include strictly : Bool)
      → validate (probe_config m) ≡ none
      → pos 0 <ℤ index
      → normalize_tun_source_routes addrs rs ≡ ok out
      → validate (default_tun_config m index addrs routes out include strictly) ≡ none
  unfolding default_tun_config route_families probe_config
  default_tun_config_valid m index addrs routes rs out include strictly accepted positive n =
      let v = (validate_iff (probe_config m)).0 accepted in
      let f = families_of x (addrs ++ routes) in
      let k = covering x strictly (or_both x f) (or_both_some x f) in
      (validate_iff (default_tun_config m index addrs routes out include strictly)).1 (record {
        tun = positive;
        vpn = v.vpn;
        safe = v.safe;
        differ = v.differ;
        base_positive = v.base_positive;
        span_wide = v.span_wide;
        below_builtin = v.below_builtin;
        app_mask = v.app_mask;
        user_mask = v.user_mask;
        apart = v.apart;
        mode_known = mode_cases include;
        strictness_known = strictness_cases strictly;
        some_family = k.0;
        tunnel4 = k.1;
        tunnel6 = k.2;
        sources =
            subst (λ tunnel. All (IsValidSource tunnel) out)
              (sym (
                effective_or_both x (default_tun_config m index addrs routes out include strictly) f
                  refl))
              (normalized_sources addrs routes rs out n).0;
        distinct = (normalized_sources addrs routes rs out n).1;
      })
