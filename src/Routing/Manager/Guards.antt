-- ===== src/Routing/Manager/Guards.antt =====
-- While the routing state is switched, the transition guards stay in the kernel, so that traffic
-- which is not the VPN's own finds no other way out.
use mathlib.Core.List.{Memᴰ}
use sysnet_linux.Base.{
  ◌≡◌, ◌≢◌, inl, inr, false, ◌||◌, List, [], ◌∷◌, All, Option, any-false, Result-cases, arith,
  Option-cases,
}
use sysnet_linux.Net.Prefix.{Prefix}
use sysnet_linux.Routing.Model.{Rule, Route, rule_unreachable, rule_eq, rule_eq_iff}
use sysnet_linux.Routing.Config.{Config}
use sysnet_linux.Routing.Compiler.{DesiredState}
use sysnet_linux.Routing.Adapter.{Adapter, AdapterLaws}
use sysnet_linux.Routing.Manager.Listing.{
  listed_rule, keep_rule, OwnedRuleScope, OwnedTableTarget, owned_table_targets, owned_rule_scopes,
}
use sysnet_linux.Routing.Manager.Steps.{
  each_until, in_turn, switch_steps, each_join, ◌>>◌, wrap, flush_table_family, delete_owned_rules,
  delete_unless_kept, remove_obsolete_rule, switch_state, put_route, put_routes, put_rule,
  put_rules, clear_tables, clear_obsolete, clear_rules, ApplyError, install_vpn_route,
  install_safe_route,
}

-- A step leaves a property of the state, whether it fails or not.
abbrev pub Keeps : {S E : Type 0} → (S → Type 0) → (S → Option E × S) → Type 0
Keeps {S} P m = (s : S) → P s → P (m s).1

module _ {S E : Type 0} (P : S → Type 0) where
  pub >>-Keeps : (m k : S → Option E × S) → Keeps P m → Keeps P k → Keeps P (m >> k)
  >>-Keeps m k hm hk s p = elim (Option-cases (m s).0) [
    | inl e ↦ rw (e, ◌>>◌) (hk (m s).1 (hm s p))
    | inr (x, e) ↦ rw (e, ◌>>◌) (hm s p)
  ]

  pub wrap-Keeps : {F : Type 0} (f : E → F) (m : S → Option E × S) → Keeps P m → Keeps P (wrap f m)
  wrap-Keeps f m h s p = h s p

  pub each_until-Keeps :
      {X : Type 0} (f : X → S → Option E × S) (xs : List X)
      → ((x : X) → Keeps P (f x))
      → Keeps P (each_until f xs)
  unfolding each_until
  each_until-Keeps f [] h s p = p
  each_until-Keeps f (x ∷ xs) h s p = elim (Option-cases (f x s).0) [
    | inl e ↦ rw (e, each_until) (each_until-Keeps f xs h (f x s).1 (h x s p))
    | inr (y, e) ↦ rw (e, each_until) (h x s p)
  ]

  pub in_turn-Keeps : (ms : List (S → Option E × S)) → All (Keeps P) ms → Keeps P (in_turn ms)
  unfolding in_turn
  in_turn-Keeps [] h s p = p
  in_turn-Keeps (m ∷ ms) h s p = elim (Option-cases (m s).0) [
    | inl e ↦ rw (e, in_turn) (in_turn-Keeps ms h.1 (m s).1 (h.0 s p))
    | inr (x, e) ↦ rw (e, in_turn) (h.0 s p)
  ]

  pub each_join-Keeps :
      {X : Type 0} (f : X → S → Option E × S) (xs : List X)
      → ((x : X) → Keeps P (f x))
      → (s : S) → P s
      → P (each_join f xs s).1
  unfolding each_join
  each_join-Keeps f [] h s p = p
  each_join-Keeps f (x ∷ xs) h s p = each_join-Keeps f xs h (f x s).1 (h x s p)

kept_apart :
    (q r : Rule) (keep : List Rule)
    → Memᴰ q keep
    → keep_rule r keep ≡ false
    → (r ≢ q) × (r ≢ listed_rule q)
unfolding keep_rule
kept_apart q r keep m h =
    let out = any-false (λ k. rule_eq r k || rule_eq r (listed_rule k)) keep h m in
    ground (arith, rule_eq_iff r q, rule_eq_iff r (listed_rule q))

module _ (a : Adapter) (laws : AdapterLaws a) where
  open laws use {Holds}

  pub flush_table_family-Keeps :
      (q : Rule) (t : OwnedTableTarget) → Keeps (Holds q) (flush_table_family a t)
  unfolding flush_table_family
  flush_table_family-Keeps q t s p = elim (Result-cases (a.list_routes t.family t.table s).0) [
    | inl (routes, e) ↦
        rw (e, flush_table_family)
          (each_join-Keeps (Holds q) a.delete_route routes (laws.delete_route_keeps q) _
            (laws.list_routes_keeps q t.family t.table s p))
    | inr (x, e) ↦ rw (e, flush_table_family) (laws.list_routes_keeps q t.family t.table s p)
  ]

  clear_tables-Keeps : (q : Rule) (ts : List OwnedTableTarget) → Keeps (Holds q) (clear_tables a ts)
  unfolding clear_tables
  clear_tables-Keeps q ts s p =
      each_until-Keeps (Holds q) (flush_table_family a) ts (flush_table_family-Keeps q) s p

  pub put_routes-Keeps :
      (q : Rule) (message : Prefix → a.Failure → ApplyError a.Failure) (rs : List Route)
      → Keeps (Holds q) (put_routes a message rs)
  unfolding put_routes
  put_routes-Keeps q message rs s p =
      each_until-Keeps (Holds q) (put_route a message) rs
        (λ r t h. laws.replace_route_keeps q r t h) s p

  put_rules-Keeps : (q : Rule) (rs : List Rule) → Keeps (Holds q) (put_rules a rs)
  unfolding put_rules
  put_rules-Keeps q rs s p =
      each_until-Keeps (Holds q) (put_rule a) rs (λ r t h. laws.add_keeps q r t h) s p

  -- A guard: an unreachable rule of the list that deletions keep.
  module _ (q : Rule) (guards : List Rule) (stop : q.action ≡ rule_unreachable)
      (m : Memᴰ q guards) where
    delete_unless_kept-Keeps :
        (c : Config) (r : Rule) → Keeps (Holds q) (delete_unless_kept a c guards r)
    unfolding delete_unless_kept
    delete_unless_kept-Keeps c r s p =
        ground (arith, kept_apart q r guards m, laws.delete_keeps_unreachable q r s stop)

    remove_obsolete_rule-Keeps :
        (desired : List Rule) (r : Rule) → Keeps (Holds q) (remove_obsolete_rule a desired guards r)
    unfolding remove_obsolete_rule
    remove_obsolete_rule-Keeps desired r s p =
        ground (arith, kept_apart q r guards m, laws.delete_keeps_unreachable q r s stop)

    clear_obsolete-Keeps :
        (desired old : List Rule) → Keeps (Holds q) (clear_obsolete a desired guards old)
    unfolding clear_obsolete
    clear_obsolete-Keeps desired old s p =
        each_until-Keeps (Holds q) (remove_obsolete_rule a desired guards) old
          (remove_obsolete_rule-Keeps desired) s p

    delete_owned_rules-Keeps :
        (scope : OwnedRuleScope) → Keeps (Holds q) (delete_owned_rules a guards scope)
    unfolding delete_owned_rules
    delete_owned_rules-Keeps scope s p = elim (Result-cases (a.list_rules scope.family s).0) [
      | inl (rules, e) ↦
          rw (e, delete_owned_rules)
            (each_join-Keeps (Holds q) (delete_unless_kept a scope.config guards) rules
              (delete_unless_kept-Keeps scope.config) _ (laws.list_rules_keeps q scope.family s p))
      | inr (x, e) ↦ rw (e, delete_owned_rules) (laws.list_rules_keeps q scope.family s p)
    ]

    clear_rules-Keeps :
        (scopes : List OwnedRuleScope) → Keeps (Holds q) (clear_rules a guards scopes)
    unfolding clear_rules
    clear_rules-Keeps scopes s p =
        each_until-Keeps (Holds q) (delete_owned_rules a guards) scopes delete_owned_rules-Keeps s p

    -- All of applyDesired between the guards' installation and their removal.
    pub switch_state-Keeps :
        (configs : List Config) (old : List Rule) (d : DesiredState)
        → Keeps (Holds q) (switch_state a guards configs old d)
    unfolding switch_state switch_steps
    switch_state-Keeps configs old d =
        in_turn-Keeps (Holds q) (switch_steps a guards configs old d) (
          clear_obsolete-Keeps d.rules old,
          (
            clear_tables-Keeps q (owned_table_targets configs),
            (
              put_routes-Keeps q install_vpn_route d.vpn_routes,
              (
                put_routes-Keeps q install_safe_route d.safe_routes,
                (clear_rules-Keeps (owned_rule_scopes configs), (put_rules-Keeps q d.rules, tt)),
              ),
            ),
          ),
        )
