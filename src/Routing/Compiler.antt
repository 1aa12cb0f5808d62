-- ===== src/Routing/Compiler.antt =====
-- routing/compiler.go: from a configuration and the main table to the desired rules and routes.
pub mod Priorities
pub mod Routes
use sysnet_linux.Base.{
  ℕ, ◌+◌, ℤ, pos, eq_ℤ, ◌+ℤ◌, pos_part, neg_part, to_word, Ordering, compare, bit_and, Bool, true,
  false, not, ◌&&◌, ◌||◌, List, [], ◌∷◌, ◌++◌, map, Option, none, some, Result, ok, err, any,
  keep_if, if◌then◌else◌,
}
use sysnet_linux.Base.Sort.{sort, insert_sorted}
use sysnet_linux.Net.Addr.{Addr, is4, compare_addr}
use sysnet_linux.Net.Addr
use sysnet_linux.Net.Prefix.{Prefix, prefix_eq}
use sysnet_linux.Routing.Unix.{af_inet, af_inet6, rt_table_main}
use sysnet_linux.Routing.Model.{
  Rule, RuleAction, rule_lookup, rule_unreachable, Route, route_type_unicast, Nexthop, SourceRoute,
  Snapshot, plain_rule,
}
use sysnet_linux.Routing.Config.{
  Config, ConfigError, FamilySet, Mode, mode_exclude, mode_include, mode_other, Strictness, strict,
  non_strict, strictness_other, validate, effective_tunnel_families, family_enabled,
  family_constants, family_default_prefix, rule_offset_app_main, rule_offset_app_unreachable,
  rule_offset_transition_guard, rule_offset_user_first,
}
use sysnet_linux.Routing.Safe.{SafeClassification, route_safe, classify_safe_route, is_safe}

pub record DesiredState : Type 0 where
  pub config : Config
  pub rules : List Rule
  pub vpn_routes : List Route
  pub safe_routes : List Route

-- The selectors `all` and `user` of compileRules; `add` sets the priority.
abbrev pub all_rule : ℤ → RuleAction → ℤ → Rule
all_rule family action table = plain_rule family (pos 0) action table

abbrev pub user_rule : Config → ℤ → RuleAction → ℤ → Rule
user_rule c family action table = record (plain_rule family (pos 0) action table) {
  mark = c.user_mark;
  mask = c.user_mark_mask;
}

unfoldable pub mark_rule : ℤ → ℤ → RuleAction → ℤ → ℕ → ℕ → Rule
mark_rule family priority action table mark mask =
    record (plain_rule family priority action table) { mark = mark; mask = mask }

-- The calls of `add`, which counts nextPriority up.
unfoldable pub number_from : ℤ → List Rule → List Rule
number_from next [] = []
number_from next (r ∷ rs) = record r { priority = next } ∷ number_from (next +ℤ pos 1) rs

unfoldable pub mode_rules : Mode → Strictness → Config → ℤ → List Rule
mode_rules mode_exclude strict c family =
    user_rule c family rule_unreachable (pos 0)
    ∷ all_rule family rule_lookup c.vpn_table
    ∷ all_rule family rule_unreachable (pos 0)
    ∷ []
mode_rules mode_exclude non_strict c family =
    user_rule c family rule_lookup rt_table_main
    ∷ user_rule c family rule_unreachable (pos 0)
    ∷ all_rule family rule_lookup c.safe_table
    ∷ all_rule family rule_lookup c.vpn_table
    ∷ all_rule family rule_unreachable (pos 0)
    ∷ []
mode_rules mode_include strict c family =
    user_rule c family rule_lookup c.vpn_table
    ∷ user_rule c family rule_unreachable (pos 0)
    ∷ all_rule family rule_unreachable (pos 0)
    ∷ []
mode_rules mode_include non_strict c family =
    all_rule family rule_lookup c.safe_table
    ∷ user_rule c family rule_lookup c.vpn_table
    ∷ user_rule c family rule_unreachable (pos 0)
    ∷ all_rule family rule_lookup rt_table_main
    ∷ []
mode_rules _ _ c family = []

unfoldable pub compile_rules : Config → ℤ → List Rule
unfolding mark_rule number_from mode_rules family_enabled effective_tunnel_families
compile_rules c family =
    mark_rule family (c.priority_base +ℤ rule_offset_app_main) rule_lookup rt_table_main
      c.app_bypass_mark c.app_bypass_mask
    ∷ mark_rule family (c.priority_base +ℤ rule_offset_app_unreachable) rule_unreachable (pos 0)
        c.app_bypass_mark c.app_bypass_mask
    ∷ number_from (c.priority_base +ℤ rule_offset_user_first) (
        if not (family_enabled (effective_tunnel_families c) family)
        then all_rule family rule_unreachable (pos 0) ∷ []
        else mode_rules c.mode c.strictness c family)

unfoldable pub source_route_family : SourceRoute → ℤ
source_route_family r = if is4 r.destination.addr then af_inet else af_inet6

abbrev cmp_int : ℤ → ℤ → Ordering
cmp_int a b = compare (pos_part a + neg_part b) (pos_part b + neg_part a)

-- `if n := …; n != 0 { return n }`, and what follows it.
abbrev pub or_else : Ordering → Ordering → Ordering
or_else Ordering.eq rest = rest
or_else o rest = o

compare_source_routes : SourceRoute → SourceRoute → Ordering
compare_source_routes a b = or_else (compare_addr a.destination.addr b.destination.addr) (
    or_else (compare a.destination.bits_plus_one b.destination.bits_plus_one)
      (compare_addr a.source b.source))

unfoldable pub sort_source_routes : List SourceRoute → List SourceRoute
unfolding compare_source_routes
sort_source_routes = sort compare_source_routes

-- RTNH_F_ONLINK | RTNH_F_PERVASIVE of the Linux ABI.
abbrev intent_flags : ℕ
intent_flags = 4 + 2

unfoldable pub desired_nexthop_flags : ℤ → ℤ
desired_nexthop_flags flags = pos (bit_and (to_word flags) intent_flags)

abbrev intent_hop : Nexthop → Nexthop
unfolding desired_nexthop_flags
intent_hop hop = record hop { flags = desired_nexthop_flags hop.flags }

unfoldable pub safe_table_route : Route → ℤ → Route
unfolding desired_nexthop_flags
safe_table_route route table = record route {
  table = table;
  flags = desired_nexthop_flags route.flags;
  multipath = map intent_hop route.multipath;
}

unfoldable pub route_depends_on_gateway : Route → Bool
route_depends_on_gateway route =
    Addr.is_valid route.gateway || any (λ hop. Addr.is_valid hop.gateway) route.multipath

abbrev by_dependence : Bool → Bool → Ordering
by_dependence true false = Ordering.gt
by_dependence false true = Ordering.lt
by_dependence _ _ = Ordering.eq

unfoldable pub compare_safe_routes : Route → Route → Ordering
compare_safe_routes a b =
    or_else (by_dependence (route_depends_on_gateway a) (route_depends_on_gateway b)) (
      or_else (cmp_int a.family b.family) (
        or_else (compare_addr a.dst.addr b.dst.addr)
          (compare a.dst.bits_plus_one b.dst.bits_plus_one)))

unfoldable pub sort_safe_routes_for_install : List Route → List Route
sort_safe_routes_for_install = sort compare_safe_routes

-- A route of the VPN table through the TUN.
abbrev pub tun_route : Config → ℤ → Prefix → Addr → Route
tun_route c family dst source = record {
  family = family;
  table = c.vpn_table;
  dst = dst;
  gateway = Addr.invalid;
  preferred_source = source;
  link_index = c.tun_index;
  priority = pos 0;
  scope = pos 0;
  flags = pos 0;
  type = route_type_unicast;
  multipath = [];
}

is_default_of : ℤ → SourceRoute → Bool
unfolding source_route_family prefix_eq family_default_prefix
is_default_of family r =
    eq_ℤ (source_route_family r) family && prefix_eq r.destination (family_default_prefix family)

is_specific_of : ℤ → SourceRoute → Bool
unfolding source_route_family prefix_eq family_default_prefix
is_specific_of family r =
    eq_ℤ (source_route_family r) family
    && not (prefix_eq r.destination (family_default_prefix family))

-- The preferred source of the default route: that of the last source route which names it.
default_source : ℤ → Addr → List SourceRoute → Addr
unfolding is_default_of
default_source family source [] = source
default_source family source (r ∷ rs) =
    default_source family (if is_default_of family r then r.source else source) rs

unfoldable pub vpn_routes_of : Config → ℤ → List Route
unfolding default_source is_specific_of sort_source_routes family_default_prefix
vpn_routes_of c family =
    tun_route c family (family_default_prefix family)
      (default_source family Addr.invalid c.source_routes)
    ∷ map (λ r. tun_route c family r.destination r.source)
        (sort_source_routes (keep_if (is_specific_of family) c.source_routes))

-- The loop over the families, for the rules and for the VPN routes.
unfoldable pub rules_for : Config → List ℤ → List Rule
rules_for c [] = []
rules_for c (family ∷ families) = compile_rules c family ++ rules_for c families

unfoldable pub vpn_routes_for : Config → List ℤ → List Route
vpn_routes_for c [] = []
vpn_routes_for c (family ∷ families) =
    (if family_enabled (effective_tunnel_families c) family then vpn_routes_of c family else [])
    ++ vpn_routes_for c families

-- The main-table routes that the loop over the snapshot copies.
unfoldable pub is_copied : Config → Route → Bool
unfolding is_safe
is_copied c route =
    family_enabled c.families route.family && is_safe (classify_safe_route route c.tun_index)

unfoldable pub safe_routes_for : Config → List Route → List Route
safe_routes_for c routes =
    sort_safe_routes_for_install
      (map (λ route. safe_table_route route c.safe_table) (keep_if (is_copied c) routes))

unfoldable pub desired_state : Config → Snapshot → DesiredState
desired_state c snapshot =
    let families = family_constants c.families in
    record {
      config = c;
      rules = rules_for c families;
      vpn_routes = vpn_routes_for c families;
      safe_routes = safe_routes_for c snapshot.main_routes;
    }

-- CompileDesiredState.
unfoldable pub compile_desired_state : Config → Snapshot → Result ConfigError DesiredState
compile_desired_state c snapshot = elim (validate c) [
  | some e ↦ err e
  | none ↦ ok (desired_state c snapshot)
]

unfoldable pub transition_guard : Config → ℤ → Rule
transition_guard c family =
    plain_rule family (c.priority_base +ℤ rule_offset_transition_guard) rule_unreachable (pos 0)

unfoldable pub transition_guard_rules : Config → Result ConfigError (List Rule)
transition_guard_rules c = elim (validate c) [
  | some e ↦ err e
  | none ↦ ok (map (transition_guard c) (family_constants c.families))
]
