-- ===== src/Routing/Config/Valid.antt =====
-- Config.validate accepts exactly the configurations of an independent description.
use sysnet_linux.Base.{
  ℤ, pos, ◌+ℤ◌, ◌<ℤ◌, ◌≤ℤ◌, eq_ℤ_iff, ◌≡◌, ◌≢◌, ◌↔◌, ◌⊎◌, true, false, none, arith, All, bit_and,
}
use sysnet_linux.Routing.Unix.{rt_table_main, rt_table_local, rt_table_default}
use sysnet_linux.Routing.Config.{
  Config, mode_exclude, mode_include, strict, non_strict, effective_tunnel_families, validate,
  default_priority_span, first_kernel_builtin_priority, reserved_route_table, marks_overlap,
}
use sysnet_linux.Routing.Config.Sources.{
  IsValidSource, HasDistinctDestinations, source_routes_valid,
}

-- A routing table that the package may own.
pub record IsOwnTable (t : ℤ) : Type 0 where
  pub positive : pos 0 <ℤ t
  pub not_main : t ≢ rt_table_main
  pub not_local : t ≢ rt_table_local
  pub not_default : t ≢ rt_table_default

pub record IsValidConfig (c : Config) : Type 0 where
  pub tun : pos 0 <ℤ c.tun_index
  pub vpn : IsOwnTable c.vpn_table
  pub safe : IsOwnTable c.safe_table
  pub differ : c.vpn_table ≢ c.safe_table
  pub base_positive : pos 0 <ℤ c.priority_base
  pub span_wide : default_priority_span ≤ℤ c.priority_span
  pub below_builtin : (c.priority_base +ℤ c.priority_span) ≤ℤ first_kernel_builtin_priority
  pub app_mask : c.app_bypass_mask ≢ 0
  pub user_mask : c.user_mark_mask ≢ 0
  pub apart :
      bit_and c.app_bypass_mark (bit_and c.app_bypass_mask c.user_mark_mask)
      ≢ bit_and c.user_mark (bit_and c.app_bypass_mask c.user_mark_mask)
  pub mode_known : (c.mode ≡ mode_exclude) ⊎ (c.mode ≡ mode_include)
  pub strictness_known : (c.strictness ≡ strict) ⊎ (c.strictness ≡ non_strict)
  pub some_family : (c.families.ipv4 ≡ true) ⊎ (c.families.ipv6 ≡ true)
  pub tunnel4 : c.tunnel_families.ipv4 ≡ true → c.families.ipv4 ≡ true
  pub tunnel6 : c.tunnel_families.ipv6 ≡ true → c.families.ipv6 ≡ true
  pub sources : All (IsValidSource (effective_tunnel_families c)) c.source_routes
  pub distinct : HasDistinctDestinations c.source_routes

own_table : (t : ℤ) → reserved_route_table t ≡ false → IsOwnTable t
unfolding reserved_route_table
own_table t h = ground (
  arith,
  (eq_ℤ_iff t rt_table_main).1,
  (eq_ℤ_iff t rt_table_local).1,
  (eq_ℤ_iff t rt_table_default).1,
)

own_table_of : (t : ℤ) → IsOwnTable t → reserved_route_table t ≡ false
unfolding reserved_route_table
own_table_of t h = ground (
  arith,
  (eq_ℤ_iff t rt_table_main).0,
  (eq_ℤ_iff t rt_table_local).0,
  (eq_ℤ_iff t rt_table_default).0,
)

-- A configuration passes validation exactly when it is valid: an own, positive, unreserved pair of
-- distinct tables, a priority block that starts above 0, is wide enough and (in wrapping sums) ends
-- below the built-in rules, masks that are not 0 and marks that differ under them, a known mode and
-- strictness, at least one family and no tunnel family outside of them, and well-formed source
-- routes with no destination twice.
pub validate_iff : (c : Config) → (validate c ≡ none) ↔ IsValidConfig c
unfolding validate marks_overlap
validate_iff c = (
  λ h. ground (
    arith,
    own_table c.vpn_table,
    own_table c.safe_table,
    eq_ℤ_iff c.vpn_table c.safe_table,
    source_routes_valid (effective_tunnel_families c) c.source_routes,
  ),
  λ v. ground (
    arith,
    own_table_of c.vpn_table,
    own_table_of c.safe_table,
    eq_ℤ_iff c.vpn_table c.safe_table,
    source_routes_valid (effective_tunnel_families c) c.source_routes,
  ),
)
