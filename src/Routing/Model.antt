-- ===== src/Routing/Model.antt =====
-- routing/model.go: rules and routes, with Go's `==` on them. A slice is a list; copies of a slice
-- (cloneRules, cloneRoutes) are the list itself.
use sysnet_linux.Base.{
  ℕ, ℤ, eq_ℤ, eq_ℤ_iff, ◌==◌, ◌≡◌, refl, ◌↔◌, Bool, true, false, ◌&&◌, List, arith,
}
use sysnet_linux.Net.Addr.{Addr}
use sysnet_linux.Net.Prefix.{Prefix}

pub data RuleAction : Type 0 where
  rule_lookup rule_unreachable : RuleAction

pub record Rule : Type 0 where
  pub family : ℤ
  pub priority : ℤ
  pub action : RuleAction
  pub table : ℤ
  pub mark : ℕ
  pub mask : ℕ

pub data RouteType : Type 0 where
  route_type_unicast route_type_unsupported : RouteType

pub record Nexthop : Type 0 where
  pub link_index : ℤ
  pub gateway : Addr
  pub flags : ℤ

pub record Route : Type 0 where
  pub family : ℤ
  pub table : ℤ
  pub dst : Prefix
  pub gateway : Addr
  pub preferred_source : Addr
  pub link_index : ℤ
  pub priority : ℤ
  pub scope : ℤ
  pub flags : ℤ
  pub type : RouteType
  pub multipath : List Nexthop

pub record SourceRoute : Type 0 where
  pub destination : Prefix
  pub source : Addr

pub record Snapshot : Type 0 where
  pub main_routes : List Route

abbrev action_eq : RuleAction → RuleAction → Bool
action_eq rule_lookup rule_lookup = true
action_eq rule_unreachable rule_unreachable = true
action_eq _ _ = false

-- Go's `==` on rules.
unfoldable pub rule_eq : Rule → Rule → Bool
rule_eq a b =
    eq_ℤ a.family b.family
    && eq_ℤ a.priority b.priority
    && action_eq a.action b.action
    && eq_ℤ a.table b.table
    && a.mark == b.mark
    && a.mask == b.mask

-- A rule of which only its key fields are given: no mark.
abbrev pub plain_rule : ℤ → ℤ → RuleAction → ℤ → Rule
plain_rule family priority action table = record {
  family = family;
  priority = priority;
  action = action;
  table = table;
  mark = 0;
  mask = 0;
}

action_eq_iff : (a b : RuleAction) → (action_eq a b ≡ true) ↔ (a ≡ b)
action_eq_iff rule_lookup rule_lookup = (λ h. refl, λ e. refl)
action_eq_iff rule_lookup rule_unreachable = (λ h. ground arith, λ e. ground arith)
action_eq_iff rule_unreachable rule_lookup = (λ h. ground arith, λ e. ground arith)
action_eq_iff rule_unreachable rule_unreachable = (λ h. refl, λ e. refl)

rule_eq_self : (a : Rule) → rule_eq a a ≡ true
unfolding rule_eq
rule_eq_self a = ground (arith, (action_eq_iff a.action a.action).1 refl)

rule_eq_sound : (a b : Rule) → rule_eq a b ≡ true → a ≡ b
unfolding rule_eq
rule_eq_sound a b h = ground (
  arith,
  eq_ℤ_iff a.family b.family,
  eq_ℤ_iff a.priority b.priority,
  action_eq_iff a.action b.action,
  eq_ℤ_iff a.table b.table,
)

pub rule_eq_iff : (a b : Rule) → (rule_eq a b ≡ true) ↔ (a ≡ b)
rule_eq_iff a b = (rule_eq_sound a b, λ e. rw (← e) (rule_eq_self a))
