-- ===== src/Routing/Manager.antt =====
-- routing/manager.go: the Manager and its operations. The mutex makes each operation one step.
pub mod Listing
pub mod Steps
pub mod Owned
pub mod GuardLoops
pub mod FailClosed
pub mod RefreshClosed
pub mod Overflow
pub mod Outcomes
pub mod Guards
use sysnet_linux.Base.{
  Bool, true, false, List, [], ◌∷◌, ◌++◌, map, Option, none, some, Result, ok, err, if◌then◌else◌,
}
use sysnet_linux.Routing.Model.{Rule}
use sysnet_linux.Routing.Config.{Config, ConfigError, family_constants, validate}
use sysnet_linux.Routing.Compiler.{DesiredState, compile_desired_state, transition_guard}
use sysnet_linux.Routing.Adapter.{Adapter, LinkError, link_not_found, link_failed}
use Listing.{owned_rule_scopes, owned_table_targets}
use Steps.{
  SweepError, ApplyError, install_guard, remove_guard, list_main, install_safe_route,
  flush_tables_failed, compile_failed, ManagerError, manager_closed, refresh_before_apply,
  tun_link_not_found, invalid_config, lookup_link, apply_failed, rollback_incomplete, each_until,
  each_join, ◌>>◌, wrap, Step, flush_table_family, flush_table, delete_owned_rules, snapshot_main,
  put_routes, with_applied, install_guards, fail, apply_desired,
}

-- The fields that the operations read or write. The monitor's are those of Routing/Monitor.
pub record Manager : Type 0 where
  pub closed : Bool
  pub applied : Option DesiredState

module _ (a : Adapter) where
  open a use {State, Failure}

  -- The outcome of an operation: an error, the Manager and the state behind the adapter.
  abbrev pub Outcome : Type 0
  Outcome = Option (ManagerError Failure) × Manager × State

  -- Apply.
  unfoldable pub apply_compiled : Manager → Result ConfigError DesiredState → State → Outcome
  unfolding apply_desired
  apply_compiled m (err e) s = (some (invalid_config e), m, s)
  apply_compiled m (ok d) s =
      let (e, s') = apply_desired a m.applied d s in
      elim e [ some x ↦ (some x, m, s') | none ↦ (none, record m { applied = some d }, s') ]

  unfoldable pub apply_linked : Config → Manager → State → Outcome
  unfolding apply_compiled snapshot_main
  apply_linked c m s =
      let (r, s') = snapshot_main a (family_constants c.families) [] s in
      elim r [
        | err e ↦ (some (apply_failed (list_main e)), m, s')
        | ok snapshot ↦ apply_compiled m (compile_desired_state c snapshot) s'
      ]

  unfoldable pub link_error : Config → LinkError Failure → ManagerError Failure
  link_error c link_not_found = tun_link_not_found
  link_error c (link_failed e) = lookup_link c.tun_index e

  unfoldable pub apply : Config → Manager → State → Outcome
  unfolding apply_linked link_error
  apply c m s = if m.closed then (some manager_closed, m, s) else elim (validate c) [
    | some e ↦ (some (invalid_config e), m, s)
    | none ↦
        let (e, s') = a.link_by_index c.tun_index s in
        elim e [ some x ↦ (some (link_error c x), m, s') | none ↦ apply_linked c m s' ]
  ]

  -- refreshLocked: the guards stand while the safe table is rebuilt.
  abbrev pub family_guards : Config → List Rule
  family_guards c = map (transition_guard c) (family_constants c.families)

  unfoldable pub refill_safe_table : DesiredState → Step a (ApplyError Failure)
  unfolding each_until flush_table put_routes
  refill_safe_table d =
      wrap flush_tables_failed (flush_table a d.config d.config.safe_table)
      >> (put_routes a install_safe_route d.safe_routes
          >> wrap remove_guard (each_until a.delete_rule (family_guards d.config)))

  unfoldable pub finish_refresh : Bool → Manager → Result ConfigError DesiredState → State → Outcome
  unfolding refill_safe_table fail
  finish_refresh installed m (err e) s = (some (fail a installed (compile_failed e)), m, s)
  finish_refresh installed m (ok d) s =
      let (e, s') = refill_safe_table d s in
      elim e [
        | some x ↦ (some (fail a installed x), m, s')
        | none ↦ (none, record m { applied = some d }, s')
      ]

  unfoldable pub refresh_guarded : Config → Bool → Manager → State → Outcome
  unfolding finish_refresh snapshot_main
  refresh_guarded c installed m s =
      let (r, s') = snapshot_main a (family_constants c.families) [] s in
      elim r [
        | err e ↦ (some (fail a installed (list_main e)), m, s')
        | ok snapshot ↦ finish_refresh installed m (compile_desired_state c snapshot) s'
      ]

  unfoldable pub refresh_locked : Config → Manager → State → Outcome
  unfolding refresh_guarded install_guards
  refresh_locked c m s =
      let (e, installed, s') = install_guards a false (family_guards c) s in
      elim e [
        | some x ↦ (some (fail a installed (install_guard x)), m, s')
        | none ↦ refresh_guarded c installed m s'
      ]

  -- Refresh.
  unfoldable pub refresh : Manager → State → Outcome
  unfolding refresh_locked
  refresh m s = if m.closed then (some manager_closed, m, s) else elim m.applied [
    | none ↦ (some refresh_before_apply, m, s)
    | some d ↦ refresh_locked d.config m s
  ]

  -- Status.
  unfoldable pub status : Manager → Option DesiredState
  status m = m.applied

  -- Rollback: every owned rule and table is tried, and all errors are joined.
  unfoldable pub sweep : List Config → State → List (SweepError Failure) × State
  unfolding each_join delete_owned_rules flush_table_family
  sweep configs s =
      let (es, s') = each_join (delete_owned_rules a []) (owned_rule_scopes configs) s in
      let (fs, s'') = each_join (flush_table_family a) (owned_table_targets configs) s' in
      (es ++ fs, s'')

  unfoldable pub rollback : Config → Manager → State → Outcome
  unfolding sweep
  rollback c m s = if m.closed then (some manager_closed, m, s) else elim (validate c) [
    | some e ↦ (some (invalid_config e), m, s)
    | none ↦
        let (es, s') = sweep (with_applied c m.applied) s in
        elim es [
          | [] ↦ (none, record m { applied = none }, s')
          | e ∷ rest ↦ (some (rollback_incomplete (e ∷ rest)), m, s')
        ]
  ]
