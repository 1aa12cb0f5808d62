-- ===== src/Routing/Config.antt =====
-- routing/config.go: the configuration of a Manager, and its validation.
pub mod Valid
pub mod Sources
use sysnet_linux.Base.{
  ℕ, suc, ◌+◌, ℤ, pos, negsuc, eq_ℤ, ltb_ℤ, leb_ℤ, ◌+ℤ◌, ◌==◌, ◌≡◌, refl, Bool, true, false, not,
  ◌&&◌, ◌||◌, List, [], ◌∷◌, ◌++◌, Option, none, some, arith, if◌then◌else◌, bit_and,
}
use sysnet_linux.Net.Addr.{
  Addr, is_valid, is4, is4in6, zone, no_zone, addr_eq, is_unspecified, is_multicast, is_loopback,
  is_global_unicast, is_link_local_unicast,
}
use sysnet_linux.Net.Prefix.{Prefix, prefix_eq, prefix_from, masked}
use sysnet_linux.Net.Prefix
use sysnet_linux.Net.Addr
use sysnet_linux.Routing.Unix.{af_inet, af_inet6, rt_table_main, rt_table_local, rt_table_default}
use sysnet_linux.Routing.Model.{SourceRoute}
use text.Mathlib.Text.{◌==◌ as str_eq}

abbrev pub default_app_bypass_mark : ℕ
default_app_bypass_mark = 0xeb9f0001

abbrev pub default_mark_mask : ℕ
default_mark_mask = 0xffffffff

abbrev pub default_priority_span : ℤ
default_priority_span = pos 32

abbrev pub default_priority_base : ℤ
default_priority_base = pos 10000

abbrev pub default_vpn_table : ℤ
default_vpn_table = pos 51820

abbrev pub default_safe_table : ℤ
default_safe_table = pos 51821

abbrev pub first_kernel_builtin_priority : ℤ
first_kernel_builtin_priority = pos 32766

abbrev pub rule_offset_app_main : ℤ
rule_offset_app_main = pos 0

abbrev pub rule_offset_app_unreachable : ℤ
rule_offset_app_unreachable = pos 1

abbrev pub rule_offset_transition_guard : ℤ
rule_offset_transition_guard = pos 2

abbrev pub rule_offset_user_first : ℤ
rule_offset_user_first = pos 3

-- `mode_other` and `strictness_other` are the remaining values of the int types.
pub data Mode : Type 0 where
  mode_exclude mode_include : Mode
  mode_other : ℤ → Mode

pub data Strictness : Type 0 where
  strict non_strict : Strictness
  strictness_other : ℤ → Strictness

pub record FamilySet : Type 0 where
  pub ipv4 : Bool
  pub ipv6 : Bool

abbrev pub both_families : FamilySet
both_families = record { ipv4 = true; ipv6 = true }

pub record Config : Type 0 where
  pub tun_index : ℤ
  pub source_routes : List SourceRoute
  pub vpn_table : ℤ
  pub safe_table : ℤ
  pub priority_base : ℤ
  pub priority_span : ℤ
  pub app_bypass_mark : ℕ
  pub app_bypass_mask : ℕ
  pub user_mark : ℕ
  pub user_mark_mask : ℕ
  pub mode : Mode
  pub strictness : Strictness
  pub families : FamilySet
  pub tunnel_families : FamilySet

abbrev pub default_config : Config
default_config = record {
  tun_index = pos 0;
  source_routes = [];
  vpn_table = default_vpn_table;
  safe_table = default_safe_table;
  priority_base = default_priority_base;
  priority_span = default_priority_span;
  app_bypass_mark = default_app_bypass_mark;
  app_bypass_mask = default_mark_mask;
  user_mark = 0;
  user_mark_mask = default_mark_mask;
  mode = mode_exclude;
  strictness = strict;
  families = both_families;
  tunnel_families = record { ipv4 = false; ipv6 = false };
}

-- The messages under ErrInvalidConfig, with the index of the source route where one is named.
pub data ConfigError : Type 0 where
  tun_index_not_positive vpn_table_reserved safe_table_reserved tables_equal : ConfigError
  priority_base_not_positive priority_span_small priority_range_overlaps : ConfigError
  app_mask_zero user_mask_zero marks_overlap_error : ConfigError
  unsupported_mode : Mode → ConfigError
  unsupported_strictness : Strictness → ConfigError
  no_family tunnel_families_not_covered : ConfigError
  route_destination_invalid route_destination_not_masked route_source_invalid : ℕ → ConfigError
  route_families_differ route_family_not_carried : ℕ → ConfigError
  route_sources_conflict route_duplicate : Prefix → ConfigError

-- `if b { return e }`, and what follows it.
abbrev pub fail_if {ℓ} : {E : Type ℓ} → Bool → E → Option E → Option E
fail_if b e rest = if b then some e else rest

unfoldable pub reserved_route_table : ℤ → Bool
reserved_route_table t =
    eq_ℤ t (pos 0)
    || eq_ℤ t rt_table_main
    || eq_ℤ t rt_table_local
    || eq_ℤ t rt_table_default
    || ltb_ℤ t (pos 0)

unfoldable pub marks_overlap : ℕ → ℕ → ℕ → ℕ → Bool
marks_overlap a_value a_mask b_value b_mask =
    let common = bit_and a_mask b_mask in bit_and a_value common == bit_and b_value common

unfoldable pub family_constants : FamilySet → List ℤ
family_constants f = (if f.ipv4 then af_inet ∷ [] else []) ++ (if f.ipv6 then af_inet6 ∷ [] else [])

unfoldable pub family_default_prefix : ℤ → Prefix
family_default_prefix family =
    if eq_ℤ family af_inet6 then prefix_from (Addr.v6 0 no_zone) 0 else prefix_from (Addr.v4 0) 0

unfoldable pub valid_preferred_source : Addr → Bool
valid_preferred_source a =
    is_valid a
    && not (is4in6 a)
    && not (is_unspecified a)
    && not (is_multicast a)
    && not (is_loopback a)
    && str_eq (zone a) no_zone
    && (is_global_unicast a || is_link_local_unicast a)

unfoldable pub effective_tunnel_families : Config → FamilySet
effective_tunnel_families c =
    if not c.tunnel_families.ipv4 && not c.tunnel_families.ipv6
    then c.families
    else c.tunnel_families

unfoldable pub family_enabled : FamilySet → ℤ → Bool
family_enabled families family =
    (eq_ℤ family af_inet && families.ipv4) || (eq_ℤ family af_inet6 && families.ipv6)

-- The map from a destination to its source, of the routes that the loop has passed.
unfoldable pub seen_source : Prefix → List SourceRoute → Option Addr
seen_source dst [] = none
seen_source dst (r ∷ rs) = if prefix_eq r.destination dst then some r.source else seen_source dst rs

abbrev repeated : SourceRoute → Option Addr → Option ConfigError → Option ConfigError
repeated r none rest = rest
repeated r (some source) rest =
    fail_if (not (addr_eq source r.source)) (route_sources_conflict r.destination)
      (some (route_duplicate r.destination))

abbrev pub source_family : Addr → ℤ
source_family a = if is4 a then af_inet else af_inet6

-- The loop over the source routes, at index `i`.
unfoldable pub validate_source_routes :
    FamilySet → ℕ → List SourceRoute → List SourceRoute → Option ConfigError
unfolding seen_source
validate_source_routes tunnel i seen [] = none
validate_source_routes tunnel i seen (r ∷ rs) =
    let rest = validate_source_routes tunnel (suc i) (r ∷ seen) rs in
    let dst = r.destination in
    fail_if (not (Prefix.is_valid dst) || is4in6 dst.addr) (route_destination_invalid i) (
      fail_if (not (prefix_eq dst (masked dst))) (route_destination_not_masked i) (
        fail_if (not (valid_preferred_source r.source)) (route_source_invalid i) (
          fail_if (if is4 dst.addr then not (is4 r.source) else is4 r.source)
            (route_families_differ i)
            (fail_if (not (family_enabled tunnel (source_family r.source)))
              (route_family_not_carried i) (repeated r (seen_source dst seen) rest)))))

is_known_mode : Mode → Bool
is_known_mode mode_exclude = true
is_known_mode mode_include = true
is_known_mode (mode_other _) = false

is_known_strictness : Strictness → Bool
is_known_strictness strict = true
is_known_strictness non_strict = true
is_known_strictness (strictness_other _) = false

-- The checks after those of tables and priorities.
validate_marks : Config → Option ConfigError
unfolding is_known_mode is_known_strictness
validate_marks c = fail_if (c.app_bypass_mask == 0) app_mask_zero (
    fail_if (c.user_mark_mask == 0) user_mask_zero (
      fail_if (marks_overlap c.app_bypass_mark c.app_bypass_mask c.user_mark c.user_mark_mask)
        marks_overlap_error
        (fail_if (not (is_known_mode c.mode)) (unsupported_mode c.mode) (
          fail_if (not (is_known_strictness c.strictness)) (unsupported_strictness c.strictness) (
            fail_if (not c.families.ipv4 && not c.families.ipv6) no_family (
              fail_if
                ((c.tunnel_families.ipv4 && not c.families.ipv4)
                  || (c.tunnel_families.ipv6 && not c.families.ipv6))
                tunnel_families_not_covered
                (validate_source_routes (effective_tunnel_families c) 0 [] c.source_routes)))))))

-- Config.validate: `none` when the configuration can be applied.
unfoldable pub validate : Config → Option ConfigError
unfolding validate_marks
validate c = fail_if (leb_ℤ c.tun_index (pos 0)) tun_index_not_positive (
    fail_if (reserved_route_table c.vpn_table) vpn_table_reserved (
      fail_if (reserved_route_table c.safe_table) safe_table_reserved (
        fail_if (eq_ℤ c.vpn_table c.safe_table) tables_equal (
          fail_if (leb_ℤ c.priority_base (pos 0)) priority_base_not_positive (
            fail_if (ltb_ℤ c.priority_span default_priority_span) priority_span_small (
              fail_if (ltb_ℤ first_kernel_builtin_priority (c.priority_base +ℤ c.priority_span))
                priority_range_overlaps (validate_marks c)))))))
