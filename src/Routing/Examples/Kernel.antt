-- ===== src/Routing/Examples/Kernel.antt =====
-- A kernel in memory that holds only a list of rules, as an Adapter that satisfies AdapterLaws.
use mathlib.Core.List.{Memᴰ}
use sysnet_linux.Base.{
  ◌≡◌, refl, sym, ap, Bool, true, not, List, [], ◌∷◌, none, some, ok, err, keep_if, mem-keep_if_of,
  if◌then◌else◌, arith,
}
use sysnet_linux.Routing.Model.{Rule, rule_eq, rule_eq_iff}
use sysnet_linux.Routing.Adapter.{Adapter, AdapterLaws}

abbrev pub drop_rule : Rule → List Rule → List Rule
unfolding rule_eq
drop_rule r = keep_if (λ q. not (rule_eq q r))

-- `adds` and `lists` say whether additions and listings succeed.
abbrev pub kernel : Bool → Bool → Adapter
kernel adds lists = record {
  State = List Rule;
  Failure = Unit;
  link_by_index = λ i s. (none, s);
  list_routes = λ f t s. (if lists then ok [] else err tt, s);
  replace_route = λ r s. (none, s);
  delete_route = λ r s. (none, s);
  list_rules = λ f s. (if lists then ok s else err tt, s);
  add_rule = λ r s. if adds then (none, r ∷ s) else (some tt, s);
  delete_rule = λ r s. (none, drop_rule r s);
  close = λ s. (none, s);
}

drop_rule-keeps : (q r : Rule) (s : List Rule) → (q ≡ r → ⊥) → Memᴰ q s → Memᴰ q (drop_rule r s)
unfolding drop_rule
drop_rule-keeps q r s n m =
    mem-keep_if_of (λ x. not (rule_eq x r)) s m (ground (arith, rule_eq_iff q r))

-- The kernel whose additions succeed.
pub kernel-laws : (lists : Bool) → AdapterLaws (kernel true lists)
kernel-laws lists = record {
  Holds = λ q s. Memᴰ q s;
  add_holds = λ r s h. Memᴰ.head refl;
  add_keeps = λ q r s h. Memᴰ.tail h;
  failed_delete_keeps = λ q r s n h. absurd (n refl);
  delete_keeps_priority = λ q r s n h. drop_rule-keeps q r s (λ e. n (ap (λ x. x.priority) e)) h;
  delete_keeps_unreachable = λ q r s u n m h. drop_rule-keeps q r s (λ e. n (sym e)) h;
  link_keeps = λ q i s h. h;
  list_routes_keeps = λ q f t s h. h;
  list_rules_keeps = λ q f s h. h;
  replace_route_keeps = λ q r s h. h;
  delete_route_keeps = λ q r s h. h;
}
