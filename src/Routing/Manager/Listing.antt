-- ===== src/Routing/Manager/Listing.antt =====
-- routing/manager.go: rules as listings show them, and which rules and tables a Manager owns.
use sysnet_linux.Base.{
  ℤ, pos, eq_ℤ, ltb_ℤ, leb_ℤ, ◌+ℤ◌, Bool, ◌&&◌, ◌||◌, List, [], ◌∷◌, ◌++◌, any, map, if◌then◌else◌,
}
use sysnet_linux.Base.Unseen.{unseen}
use sysnet_linux.Routing.Model.{Rule, rule_lookup, rule_eq}
use sysnet_linux.Routing.Config.{Config, family_constants}
use sysnet_linux.Routing.Compiler.{transition_guard}

unfoldable pub listed_rule : Rule → Rule
listed_rule r = record r {
  action = rule_lookup;
  table = if ltb_ℤ r.table (pos 256) then pos 0 else r.table;
}

unfoldable pub keep_rule : Rule → List Rule → Bool
unfolding listed_rule rule_eq
keep_rule r keep = any (λ k. rule_eq r k || rule_eq r (listed_rule k)) keep

unfoldable pub same_rule_priority_as_guard : Rule → List Rule → Bool
same_rule_priority_as_guard r guards =
    any (λ g. eq_ℤ r.family g.family && eq_ℤ r.priority g.priority) guards

pub record OwnedRuleScope : Type 0 where
  pub config : Config
  pub family : ℤ

pub record OwnedTableTarget : Type 0 where
  pub family : ℤ
  pub table : ℤ

-- The key of ownedRuleScopes.
abbrev same_scope : OwnedRuleScope → OwnedRuleScope → Bool
same_scope a b =
    eq_ℤ a.family b.family
    && eq_ℤ a.config.priority_base b.config.priority_base
    && eq_ℤ a.config.priority_span b.config.priority_span

abbrev same_target : OwnedTableTarget → OwnedTableTarget → Bool
same_target a b = eq_ℤ a.family b.family && eq_ℤ a.table b.table

abbrev pub flat {ℓ κ} : {A : Type ℓ} {B : Type κ} → (A → List B) → List A → List B
flat f [] = []
flat f (x ∷ xs) = f x ++ flat f xs

scopes_of : Config → List OwnedRuleScope
scopes_of c = map (λ f. record { config = c; family = f }) (family_constants c.families)

targets_of : Config → List OwnedTableTarget
targets_of c =
    flat
      (λ f.
        record { family = f; table = c.vpn_table }
        ∷ record { family = f; table = c.safe_table }
        ∷ [])
      (family_constants c.families)

unfoldable pub owned_rule_scopes : List Config → List OwnedRuleScope
unfolding unseen scopes_of
owned_rule_scopes configs = unseen same_scope [] (flat scopes_of configs)

unfoldable pub owned_table_targets : List Config → List OwnedTableTarget
unfolding unseen targets_of
owned_table_targets configs = unseen same_target [] (flat targets_of configs)

unfoldable pub transition_guards : List Config → List Rule
unfolding unseen rule_eq
transition_guards configs =
    unseen rule_eq [] (flat (λ c. map (transition_guard c) (family_constants c.families)) configs)

-- The priority test of deleteOwnedRules.
unfoldable pub outside_block : Config → Rule → Bool
outside_block c r =
    ltb_ℤ r.priority c.priority_base || leb_ℤ (c.priority_base +ℤ c.priority_span) r.priority
