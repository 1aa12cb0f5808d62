-- ===== src/Routing/Manager/RefreshClosed.antt =====
-- A refresh that fails under an active guard leaves a guard in the kernel.
use mathlib.Core.List.{Memᴰ}
use sysnet_linux.Base.{
  ℤ, ◌≡◌, refl, sym, ap, subst, ◌≢◌, inl, inr, Bool, false, List, [], ◌∷◌, ◌++◌, All, All-of_mem,
  Option, some, Result, ok, err, arith, Option-cases, Result-cases, Bool-cases,
}
use sysnet_linux.Routing.Unix.{rt_table_main, af_inet, af_inet6}
use sysnet_linux.Routing.Model.{Rule, Route, Snapshot, rule_unreachable}
use sysnet_linux.Routing.Config.{Config, ConfigError, family_constants}
use sysnet_linux.Routing.Compiler.{
  DesiredState, compile_desired_state, transition_guard, desired_state,
}
use sysnet_linux.Routing.Compiler.Routes.{compiled_state}
use sysnet_linux.Routing.Adapter.{Adapter, AdapterLaws}
use sysnet_linux.Routing.Manager.{
  Manager, refresh, refresh_locked, refresh_guarded, finish_refresh, refill_safe_table,
  family_guards,
}
use sysnet_linux.Routing.Manager.Owned.{AreDistinct}
use sysnet_linux.Routing.Manager.Steps.{
  ApplyError, install_guard, apply_failed_guard_active, ◌>>◌, wrap, install_guards, fail,
  snapshot_main, flush_table, flush_table_family, put_routes, install_safe_route, remove_guards,
  remove_guard_unless_desired, flush_tables_failed,
}
use sysnet_linux.Routing.Manager.Guards.{
  Keeps, wrap-Keeps, each_join-Keeps, flush_table_family-Keeps, put_routes-Keeps,
}
use sysnet_linux.Routing.Manager.GuardLoops.{SomeGuard, install_guards-all, remove_guards_failed}
use sysnet_linux.Routing.Manager.FailClosed.{active_flag, some_added}

module _ (a : Adapter) (laws : AdapterLaws a) where
  open laws use {Holds}

  snapshot_main-Keeps :
      (q : Rule) (fs : List ℤ) (routes : List Route) (s : a.State)
      → Holds q s
      → Holds q (snapshot_main a fs routes s).1
  unfolding snapshot_main
  snapshot_main-Keeps q [] routes s h = h
  snapshot_main-Keeps q (f ∷ fs) routes s h =
      elim (Result-cases (a.list_routes f rt_table_main s).0) [
        | inl (more, e) ↦
            rw (e, snapshot_main)
              (snapshot_main-Keeps q fs (routes ++ more) _
                (laws.list_routes_keeps q f rt_table_main s h))
        | inr (x, e) ↦ rw (e, snapshot_main) (laws.list_routes_keeps q f rt_table_main s h)
      ]

  flush_table-Keeps : (q : Rule) (c : Config) (t : ℤ) → Keeps (Holds q) (flush_table a c t)
  unfolding flush_table
  flush_table-Keeps q c t s h =
      each_join-Keeps (Holds q)
        (λ family. flush_table_family a (record { family = family; table = t }))
        (family_constants c.families)
        (λ family. flush_table_family-Keeps a laws q (record { family = family; table = t })) s h

  guards_stop : (c : Config) → All (λ g. g.action ≡ rule_unreachable) (family_guards a c)
  unfolding family_constants transition_guard
  guards_stop c = ground arith

  families_apart : (c : Config) → transition_guard c af_inet ≢ transition_guard c af_inet6
  unfolding transition_guard
  families_apart c e = absurd (ground (arith, ap (λ r. r.family) e))

  guards-AreDistinct : (c : Config) → AreDistinct (family_guards a c)
  unfolding family_constants
  guards-AreDistinct c = ground (arith, families_apart c)

  -- Steps which, when they fail with all guards there, leave one.
  Robust : List Rule → (a.State → Option (ApplyError a.Failure) × a.State) → Type 0
  Robust gs steps =
      (t : a.State) (e : ApplyError a.Failure)
      → SomeGuard a laws gs t
      → ((q : Rule) → Memᴰ q gs → Holds q t)
      → (steps t).0 ≡ some e
      → SomeGuard a laws gs (steps t).1

  >>-Robust :
      (gs : List Rule) (m k : a.State → Option (ApplyError a.Failure) × a.State)
      → ((q : Rule) → Keeps (Holds q) m)
      → Robust gs k
      → Robust gs (m >> k)
  unfolding Robust
  >>-Robust gs m k keeps robust t e (g, l, h) all f = elim (Option-cases (m t).0) [
    | inl p ↦
        rw (p, ◌>>◌)
          (robust (m t).1 e (g, l, keeps g t h) (λ q n. keeps q t (all q n)) (rw (p, ◌>>◌) at f))
    | inr (x, p) ↦ rw (p, ◌>>◌) (g, l, keeps g t h)
  ]

  removal-Robust :
      (c : Config) → Robust (family_guards a c) (remove_guards a [] (family_guards a c))
  unfolding Robust
  removal-Robust c t e some_guard all f =
      remove_guards_failed a laws [] (family_guards a c) t (guards_stop c) (guards-AreDistinct c)
        (All-of_mem (λ q. Holds q t) (family_guards a c) all) f

  refill-Robust : (d : DesiredState) → Robust (family_guards a d.config) (refill_safe_table a d)
  unfolding refill_safe_table remove_guards remove_guard_unless_desired
  refill-Robust d =
      >>-Robust (family_guards a d.config)
        (wrap flush_tables_failed (flush_table a d.config d.config.safe_table)) _
        (λ q.
          wrap-Keeps (Holds q) flush_tables_failed (flush_table a d.config d.config.safe_table)
            (flush_table-Keeps q d.config d.config.safe_table))
        (>>-Robust (family_guards a d.config) (put_routes a install_safe_route d.safe_routes) _
          (λ q. put_routes-Keeps a laws q install_safe_route d.safe_routes)
          (removal-Robust d.config))

  compiled_config :
      (c : Config) (snapshot : Snapshot) {d : DesiredState}
      → compile_desired_state c snapshot ≡ ok d
      → d.config ≡ c
  unfolding desired_state
  compiled_config c snapshot e = rw (compiled_state c snapshot e) refl

  finish_refresh_fail_closed :
      (installed : Bool) (m : Manager) (c : Config) (snapshot : Snapshot) (s : a.State)
      (e : ApplyError a.Failure)
      → SomeGuard a laws (family_guards a c) s
      → ((q : Rule) → Memᴰ q (family_guards a c) → Holds q s)
      → (finish_refresh a installed m (compile_desired_state c snapshot) s).0
        ≡ some (apply_failed_guard_active e)
      → SomeGuard a laws
          (family_guards a c)
          (finish_refresh a installed m (compile_desired_state c snapshot) s).2
  unfolding finish_refresh Robust
  finish_refresh_fail_closed b m c snapshot s e g all f =
      elim (Result-cases (compile_desired_state c snapshot)) [
        | inr (x, p) ↦ rw (p, finish_refresh) g
        | inl (d, p) ↦
            rw (p, finish_refresh)
              (elim (Option-cases (refill_safe_table a d s).0) [
                | inl q ↦ absurd (ground (arith, rw (p, finish_refresh, q) at f))
                | inr (y, q) ↦ rw q (
                    subst (λ k. SomeGuard a laws (family_guards a k) (refill_safe_table a d s).1)
                      (compiled_config c snapshot p)
                      (refill-Robust d s y
                        (subst (λ k. SomeGuard a laws (family_guards a k) s)
                          (sym (compiled_config c snapshot p)) g)
                        (subst (λ k. (q : Rule) → Memᴰ q (family_guards a k) → Holds q s)
                          (sym (compiled_config c snapshot p)) all)
                        q))
              ])
      ]

  refresh_guarded_fail_closed :
      (c : Config) (installed : Bool) (m : Manager) (s : a.State) (e : ApplyError a.Failure)
      → SomeGuard a laws (family_guards a c) s
      → ((q : Rule) → Memᴰ q (family_guards a c) → Holds q s)
      → (refresh_guarded a c installed m s).0 ≡ some (apply_failed_guard_active e)
      → SomeGuard a laws (family_guards a c) (refresh_guarded a c installed m s).2
  unfolding refresh_guarded
  refresh_guarded_fail_closed c b m s e (g, l, h) all f =
      elim (Result-cases (snapshot_main a (family_constants c.families) [] s).0) [
        | inr (x, p) ↦
            rw (p, refresh_guarded)
              (g, l, snapshot_main-Keeps g (family_constants c.families) [] s h)
        | inl (snapshot, p) ↦
            rw (p, refresh_guarded)
              (finish_refresh_fail_closed b m c snapshot _ e
                (g, l, snapshot_main-Keeps g (family_constants c.families) [] s h)
                (λ q n. snapshot_main-Keeps q (family_constants c.families) [] s (all q n))
                (rw (p, refresh_guarded) at f))
      ]

  finish_refresh_unguarded :
      (m : Manager) (r : Result ConfigError DesiredState) (s : a.State) (e : ApplyError a.Failure)
      → (finish_refresh a false m r s).0 ≢ some (apply_failed_guard_active e)
  unfolding finish_refresh fail
  finish_refresh_unguarded m (err x) s e f = absurd (ground arith)
  finish_refresh_unguarded m (ok d) s e f = elim (Option-cases (refill_safe_table a d s).0) [
    | inl p ↦ absurd (ground (arith, rw (p, finish_refresh) at f))
    | inr (x, p) ↦ absurd (ground (arith, rw (p, finish_refresh) at f))
  ]

  refresh_unguarded :
      (c : Config) (m : Manager) (s : a.State) (e : ApplyError a.Failure)
      → (refresh_guarded a c false m s).0 ≢ some (apply_failed_guard_active e)
  unfolding refresh_guarded fail
  refresh_unguarded c m s e f =
      elim (Result-cases (snapshot_main a (family_constants c.families) [] s).0) [
        | inl (snapshot, p) ↦
            finish_refresh_unguarded m (compile_desired_state c snapshot) _ e
              (rw (p, refresh_guarded) at f)
        | inr (x, p) ↦ absurd (ground (arith, rw (p, refresh_guarded) at f))
      ]

  refresh_locked_fail_closed :
      (c : Config) (m : Manager) (s : a.State) (e : ApplyError a.Failure)
      → (refresh_locked a c m s).0 ≡ some (apply_failed_guard_active e)
      → SomeGuard a laws (family_guards a c) (refresh_locked a c m s).2
  unfolding refresh_locked
  refresh_locked_fail_closed c m s e f =
      elim (Option-cases (install_guards a false (family_guards a c) s).0) [
        | inr (x, p) ↦
            rw (p, refresh_locked)
              (some_added a laws (family_guards a c) s (
                active_flag a laws (install_guards a false (family_guards a c) s).1
                  (install_guard x) e (rw (p, refresh_locked) at f)))
        | inl p ↦ elim (Bool-cases (install_guards a false (family_guards a c) s).1) [
          | inl flagged ↦
              rw (p, refresh_locked)
                (refresh_guarded_fail_closed c _ m _ e
                  (some_added a laws (family_guards a c) s flagged)
                  (λ q n. install_guards-all a laws q false (family_guards a c) s p n)
                  (rw (p, refresh_locked) at f))
          | inr unflagged ↦
              elim (refresh_unguarded c m _ e (rw (p, unflagged, refresh_locked) at f)) [ ]
        ]
      ]

  -- Over an adapter with the laws: when Refresh of an open Manager with an applied state fails and
  -- says that the guard is active, the transition guard of some family of the applied configuration
  -- is in the kernel, whichever step failed.
  pub refresh_fail_closed :
      (m : Manager) (d : DesiredState) (s : a.State) {e : ApplyError a.Failure}
      → m.closed ≡ false
      → m.applied ≡ some d
      → (refresh a m s).0 ≡ some (apply_failed_guard_active e)
      → SomeGuard a laws (family_guards a d.config) (refresh a m s).2
  unfolding refresh
  refresh_fail_closed m d s {e} open_ applied f =
      simp (open_, applied, refresh)
        (refresh_locked_fail_closed d.config m s e (simp (open_, applied, refresh) at f))
