-- ===== src/Routing/Manager/Steps.antt =====
-- routing/manager.go: the steps that the operations of a Manager are made of, over an Adapter whose
-- state is passed along, up to applyDesired.
use sysnet_linux.Base.{
  ℤ, Bool, true, false, not, ◌||◌, List, [], ◌∷◌, ◌++◌, Option, none, some, Result, ok, err, any,
  if◌then◌else◌,
}
use sysnet_linux.Net.Prefix.{Prefix}
use sysnet_linux.Routing.Unix.{rt_table_main}
use sysnet_linux.Routing.Model.{Rule, Route, Snapshot, rule_eq}
use sysnet_linux.Routing.Config.{Config, ConfigError, family_constants}
use sysnet_linux.Routing.Compiler.{DesiredState}
use sysnet_linux.Routing.Adapter.{Adapter}
use sysnet_linux.Routing.Manager.Listing.{
  keep_rule, same_rule_priority_as_guard, OwnedRuleScope, OwnedTableTarget, owned_rule_scopes,
  owned_table_targets, transition_guards, outside_block,
}

-- Errors of a listing followed by deletions; the deletions' errors are joined.
pub data SweepError (E : Type 0) : Type 0 where
  list_failed : E → SweepError E
  deletes_failed : List E → SweepError E

-- What was being done when an apply or a refresh failed.
pub data ApplyError (E : Type 0) : Type 0 where
  install_guard remove_obsolete remove_guard list_main : E → ApplyError E
  install_vpn_route install_safe_route : Prefix → E → ApplyError E
  install_rule : ℤ → E → ApplyError E
  flush_table_failed flush_tables_failed delete_rules_failed : List (SweepError E) → ApplyError E
  compile_failed : ConfigError → ApplyError E

pub data ManagerError (E : Type 0) : Type 0 where
  manager_closed refresh_before_apply tun_link_not_found : ManagerError E
  invalid_config : ConfigError → ManagerError E
  lookup_link : ℤ → E → ManagerError E
  apply_failed apply_failed_guard_active : ApplyError E → ManagerError E
  rollback_incomplete : List (SweepError E) → ManagerError E

abbrev pub none_if_empty {ℓ} : {E : Type ℓ} → List E → Option (List E)
none_if_empty [] = none
none_if_empty (e ∷ es) = some (e ∷ es)

abbrev pub add_error {ℓ} : {E : Type ℓ} → Option E → List E → List E
add_error none es = es
add_error (some e) es = e ∷ es

module _ {S : Type 0} {E X : Type 0} where
  -- `for … { if err := f(x); err != nil { return err } }`
  unfoldable pub each_until : (X → S → Option E × S) → List X → S → Option E × S
  each_until f [] s = (none, s)
  each_until f (x ∷ xs) s =
      let (e, s') = f x s in
      let rest = each_until f xs s' in elim e [ some x ↦ (some x, s') | none ↦ rest ]

  -- `for … { errs = append(errs, f(x)) }`, with the errors that are not nil.
  unfoldable pub each_join : (X → S → Option E × S) → List X → S → List E × S
  each_join f [] s = ([], s)
  each_join f (x ∷ xs) s =
      let (e, s') = f x s in let (es, s'') = each_join f xs s' in (add_error e es, s'')

-- `if err := m; err != nil { return err }`, and what follows it.
infixl 5 ◌>>◌
abbrev pub ◌>>◌ : {S E : Type 0} → (S → Option E × S) → (S → Option E × S) → S → Option E × S
◌>>◌ m k s = let (e, s') = m s in elim e [ some x ↦ (some x, s') | none ↦ k s' ]

-- The error under a message.
abbrev pub wrap : {S E F : Type 0} → (E → F) → (S → Option E × S) → S → Option F × S
wrap f m s = let (e, s') = m s in (elim e [ some x ↦ some (f x) | none ↦ none ], s')

unfoldable pub applied_rules : Option DesiredState → List Rule
applied_rules none = []
applied_rules (some d) = d.rules

unfoldable pub with_applied : Config → Option DesiredState → List Config
with_applied c none = c ∷ []
with_applied c (some d) = c ∷ d.config ∷ []

-- Steps one after the other, up to the first that fails.
unfoldable pub in_turn : {S E : Type 0} → List (S → Option E × S) → S → Option E × S
in_turn [] s = (none, s)
in_turn (m ∷ ms) s =
    let (e, s') = m s in let rest = in_turn ms s' in elim e [ some x ↦ (some x, s') | none ↦ rest ]

module _ (a : Adapter) where
  open a use {State, Failure}

  abbrev pub Step : Type 0 → Type 0
  Step E = State → Option E × State

  -- flushTableFamily.
  unfoldable pub flush_table_family : OwnedTableTarget → Step (SweepError Failure)
  unfolding each_join
  flush_table_family target s =
      let (listed, s') = a.list_routes target.family target.table s in
      elim listed [
        | err e ↦ (some (list_failed e), s')
        | ok routes ↦
            let (es, s'') = each_join a.delete_route routes s' in
            (elim es [ [] ↦ none | e ∷ es' ↦ some (deletes_failed (e ∷ es')) ], s'')
      ]

  -- flushTable: all families of a configuration, with the errors joined.
  unfoldable pub flush_table : Config → ℤ → Step (List (SweepError Failure))
  unfolding each_join flush_table_family
  flush_table c table s =
      let (es, s') =
        each_join (λ family. flush_table_family (record { family = family; table = table }))
          (family_constants c.families) s in
      (none_if_empty es, s')

  -- The body of deleteOwnedRules for one listed rule.
  unfoldable pub delete_unless_kept : Config → List Rule → Rule → Step Failure
  unfolding outside_block keep_rule
  delete_unless_kept c keep r s =
      if outside_block c r || keep_rule r keep then (none, s) else a.delete_rule r s

  unfoldable pub delete_owned_rules : List Rule → OwnedRuleScope → Step (SweepError Failure)
  unfolding each_join delete_unless_kept
  delete_owned_rules keep scope s =
      let (listed, s') = a.list_rules scope.family s in
      elim listed [
        | err e ↦ (some (list_failed e), s')
        | ok rules ↦
            let (es, s'') = each_join (delete_unless_kept scope.config keep) rules s' in
            (elim es [ [] ↦ none | e ∷ es' ↦ some (deletes_failed (e ∷ es')) ], s'')
      ]

  -- snapshotMain, from the routes that were gathered.
  unfoldable pub snapshot_main : List ℤ → List Route → State → Result Failure Snapshot × State
  snapshot_main [] gathered s = (ok (record { main_routes = gathered }), s)
  snapshot_main (family ∷ families) gathered s =
      let (listed, s') = a.list_routes family rt_table_main s in
      elim listed [
        | err e ↦ (err e, s')
        | ok routes ↦ snapshot_main families (gathered ++ routes) s'
      ]

  -- The removal of a rule of the applied state that would stand beside a guard.
  unfoldable pub remove_obsolete_rule : List Rule → List Rule → Rule → Step Failure
  unfolding rule_eq keep_rule same_rule_priority_as_guard
  remove_obsolete_rule desired guards r s =
      if any (rule_eq r) desired || keep_rule r guards || not (same_rule_priority_as_guard r guards)
      then (none, s)
      else a.delete_rule r s

  unfoldable pub remove_guard_unless_desired : List Rule → Rule → Step Failure
  unfolding rule_eq
  remove_guard_unless_desired desired g s =
      if any (rule_eq g) desired then (none, s) else a.delete_rule g s

  -- The loop that adds the guards, with guardInstalled.
  unfoldable pub install_guards : Bool → List Rule → State → Option Failure × Bool × State
  install_guards installed [] s = (none, installed, s)
  install_guards installed (g ∷ gs) s =
      let (e, s') = a.add_rule g s in
      elim e [ some x ↦ (some x, installed, s') | none ↦ install_guards true gs s' ]

  -- The steps of applyDesired between the installation of the guards and their removal.
  unfoldable pub clear_obsolete : List Rule → List Rule → List Rule → Step (ApplyError Failure)
  unfolding each_until remove_obsolete_rule
  clear_obsolete desired guards old =
      wrap remove_obsolete (each_until (remove_obsolete_rule desired guards) old)

  unfoldable pub clear_tables : List OwnedTableTarget → Step (ApplyError Failure)
  unfolding each_until flush_table_family
  clear_tables targets =
      wrap (λ e. flush_table_failed (e ∷ [])) (each_until flush_table_family targets)

  unfoldable pub put_route :
      (Prefix → Failure → ApplyError Failure) → Route → Step (ApplyError Failure)
  put_route message r = wrap (message r.dst) (a.replace_route r)

  unfoldable pub put_routes :
      (Prefix → Failure → ApplyError Failure) → List Route → Step (ApplyError Failure)
  unfolding each_until put_route
  put_routes message = each_until (put_route message)

  unfoldable pub clear_rules : List Rule → List OwnedRuleScope → Step (ApplyError Failure)
  unfolding each_until delete_owned_rules
  clear_rules guards scopes =
      wrap (λ e. delete_rules_failed (e ∷ [])) (each_until (delete_owned_rules guards) scopes)

  unfoldable pub put_rule : Rule → Step (ApplyError Failure)
  put_rule r = wrap (install_rule r.priority) (a.add_rule r)

  unfoldable pub put_rules : List Rule → Step (ApplyError Failure)
  unfolding each_until put_rule
  put_rules = each_until put_rule

  unfoldable pub switch_steps :
      List Rule → List Config → List Rule → DesiredState → List (Step (ApplyError Failure))
  unfolding clear_obsolete clear_tables put_routes clear_rules put_rules
  switch_steps guards configs old d =
      clear_obsolete d.rules guards old
      ∷ clear_tables (owned_table_targets configs)
      ∷ put_routes install_vpn_route d.vpn_routes
      ∷ put_routes install_safe_route d.safe_routes
      ∷ clear_rules guards (owned_rule_scopes configs)
      ∷ put_rules d.rules
      ∷ []

  unfoldable pub switch_state :
      List Rule → List Config → List Rule → DesiredState → Step (ApplyError Failure)
  unfolding in_turn switch_steps
  switch_state guards configs old d = in_turn (switch_steps guards configs old d)

  unfoldable pub remove_guards : List Rule → List Rule → Step (ApplyError Failure)
  unfolding each_until remove_guard_unless_desired
  remove_guards desired guards =
      wrap remove_guard (each_until (remove_guard_unless_desired desired) guards)

  -- `fail`: the error says whether a guard was installed.
  unfoldable pub fail : Bool → ApplyError Failure → ManagerError Failure
  fail true e = apply_failed_guard_active e
  fail false e = apply_failed e

  -- The steps after the guards, each of whose errors goes through `fail`.
  unfoldable pub guarded_by :
      Bool → List Rule → Step (ApplyError Failure) → Step (ManagerError Failure)
  unfolding install_guards fail
  guarded_by installed guards steps s =
      let (e, now, s') = install_guards installed guards s in
      elim e [ some x ↦ (some (fail now (install_guard x)), s') | none ↦ wrap (fail now) steps s' ]

  unfoldable pub apply_desired : Option DesiredState → DesiredState → Step (ManagerError Failure)
  unfolding guarded_by
  apply_desired applied d =
      let configs = with_applied d.config applied in
      let guards = transition_guards configs in
      guarded_by false guards
        (switch_state guards configs (applied_rules applied) d >> remove_guards d.rules guards)
