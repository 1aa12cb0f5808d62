-- ===== src/Routing/Manager/FailClosed.antt =====
-- A switch of the routing state that fails under an active guard leaves a guard in the kernel; one
-- that fails with no guard has changed nothing else.
use mathlib.Core.List.{Memᴰ}
use sysnet_linux.Base.{
  ◌≡◌, refl, inl, inr, Bool, true, false, List, [], ◌∷◌, All-of_mem, All-mem, Option, some, arith,
  Option-cases,
}
use sysnet_linux.Routing.Model.{Rule, rule_unreachable}
use sysnet_linux.Routing.Compiler.{DesiredState}
use sysnet_linux.Routing.Adapter.{Adapter, AdapterLaws}
use sysnet_linux.Routing.Manager.Listing.{transition_guards}
use sysnet_linux.Routing.Manager.Owned.{transition_guards_stop, transition_guards_distinct}
use sysnet_linux.Routing.Manager.Steps.{
  ApplyError, install_guard, ManagerError, apply_failed, apply_failed_guard_active, ◌>>◌, wrap,
  install_guards, fail, guarded_by, switch_state, remove_guards, with_applied, applied_rules,
  apply_desired,
}
use sysnet_linux.Routing.Manager.Guards.{switch_state-Keeps}
use sysnet_linux.Routing.Manager.GuardLoops.{
  SomeGuard, install_guards-all, install_guards-some, remove_guards_failed,
}

module _ (a : Adapter) (laws : AdapterLaws a) where
  open laws use {Holds}

  -- The guards that applyDesired installs.
  abbrev pub guards_of : Option DesiredState → DesiredState → List Rule
  guards_of applied d = transition_guards (with_applied d.config applied)

  abbrev steps_of :
      Option DesiredState → DesiredState → a.State → Option (ApplyError a.Failure) × a.State
  steps_of applied d =
      switch_state a (guards_of applied d) (with_applied d.config applied) (applied_rules applied) d
      >> remove_guards a d.rules (guards_of applied d)

  switched_keeps :
      (applied : Option DesiredState) (d : DesiredState) (q : Rule) (s : a.State)
      → Memᴰ q (guards_of applied d)
      → Holds q s
      → Holds q
          (switch_state a
            (guards_of applied d)
            (with_applied d.config applied)
            (applied_rules applied)
            d
            s).1
  switched_keeps applied d q s m h =
      switch_state-Keeps a laws q (guards_of applied d)
        (All-mem (λ r. r.action ≡ rule_unreachable) m
          (transition_guards_stop (with_applied d.config applied)))
        m (with_applied d.config applied) (applied_rules applied) d s h

  -- With all guards there, a failure of the steps leaves one of them.
  steps_failed :
      (applied : Option DesiredState) (d : DesiredState) (s : a.State) {e : ApplyError a.Failure}
      → SomeGuard a laws (guards_of applied d) s
      → ((q : Rule) → Memᴰ q (guards_of applied d) → Holds q s)
      → (steps_of applied d s).0 ≡ some e
      → SomeGuard a laws (guards_of applied d) (steps_of applied d s).1
  steps_failed applied d s (g, m, h) all e =
      elim (Option-cases
        (switch_state a (guards_of applied d) (with_applied d.config applied)
          (applied_rules applied) d s).0) [
            | inl p ↦
                rw (p, ◌>>◌)
                  (remove_guards_failed a laws d.rules (guards_of applied d) _
                    (transition_guards_stop (with_applied d.config applied))
                    (transition_guards_distinct (with_applied d.config applied))
                    (All-of_mem (λ q. Holds q _) (guards_of applied d)
                      (λ q k. switched_keeps applied d q s k (all q k)))
                    (rw (p, ◌>>◌) at e))
            | inr (x, p) ↦ rw (p, ◌>>◌) (g, m, switched_keeps applied d g s m h)
          ]

  pub active_flag :
      (b : Bool) (e e' : ApplyError a.Failure)
      → ◌≡◌ {A = Option (ManagerError a.Failure)}
          (some (fail a b e))
          (some (apply_failed_guard_active e'))
      → b ≡ true
  unfolding fail
  active_flag true e e' h = refl
  active_flag false e e' h = ground arith

  pub some_added :
      (gs : List Rule) (s : a.State)
      → (install_guards a false gs s).1 ≡ true
      → SomeGuard a laws gs (install_guards a false gs s).2
  some_added gs s h = elim (install_guards-some a laws false gs s h) [
    | inl e ↦ absurd (ground arith)
    | inr g ↦ g
  ]

  Robust : List Rule → (a.State → Option (ApplyError a.Failure) × a.State) → Type 0
  Robust gs steps =
      (t : a.State) (e : ApplyError a.Failure)
      → SomeGuard a laws gs t
      → ((q : Rule) → Memᴰ q gs → Holds q t)
      → (steps t).0 ≡ some e
      → SomeGuard a laws gs (steps t).1

  guarded_by_fail_closed :
      (gs : List Rule) (steps : a.State → Option (ApplyError a.Failure) × a.State) (s : a.State)
      (e : ApplyError a.Failure)
      → Robust gs steps
      → (guarded_by a false gs steps s).0 ≡ some (apply_failed_guard_active e)
      → SomeGuard a laws gs (guarded_by a false gs steps s).1
  unfolding guarded_by Robust
  guarded_by_fail_closed gs steps s e robust h =
      elim (Option-cases (install_guards a false gs s).0) [
        | inr (x, p) ↦
            rw (p, guarded_by)
              (some_added gs s (
                active_flag (install_guards a false gs s).1 (install_guard x) e
                  (rw (p, guarded_by) at h)))
        | inl p ↦
            rw (p, guarded_by, wrap)
              (elim (Option-cases (steps (install_guards a false gs s).2).0) [
                | inl q ↦ absurd (ground arith)
                | inr (y, q) ↦
                    robust _ y
                      (some_added gs s (
                        active_flag (install_guards a false gs s).1 y e
                          (rw (p, guarded_by, wrap, q) at h)))
                      (λ g m. install_guards-all a laws g false gs s p m) q
              ])
      ]

  -- Over an adapter with the laws: when applyDesired fails and says that the guard is active, some
  -- transition guard of the new or the applied configuration is in the kernel, whichever step failed.
  pub apply_desired_fail_closed :
      (applied : Option DesiredState) (d : DesiredState) (s : a.State) {e : ApplyError a.Failure}
      → (apply_desired a applied d s).0 ≡ some (apply_failed_guard_active e)
      → SomeGuard a laws (guards_of applied d) (apply_desired a applied d s).1
  unfolding apply_desired Robust
  apply_desired_fail_closed applied d s {e} h =
      guarded_by_fail_closed (guards_of applied d) (steps_of applied d) s e
        (λ t x g held failed. steps_failed applied d t g held failed) h

module _ (a : Adapter) where
  flag_stays : (gs : List Rule) (s : a.State) → (install_guards a true gs s).1 ≡ true
  unfolding install_guards
  flag_stays [] s = refl
  flag_stays (g ∷ gs) s = ground (arith, flag_stays gs (a.add_rule g s).1)

  guarded_by_unguarded :
      (g : Rule) (gs : List Rule) (steps : a.State → Option (ApplyError a.Failure) × a.State)
      (s : a.State) (e : ApplyError a.Failure)
      → (guarded_by a false (g ∷ gs) steps s).0 ≡ some (apply_failed e)
      → (guarded_by a false (g ∷ gs) steps s).1 ≡ (a.add_rule g s).1
  unfolding guarded_by install_guards fail
  guarded_by_unguarded g gs steps s e h = ground (arith, flag_stays gs (a.add_rule g s).1)

  -- When applyDesired fails and does not say that the guard is active, although it had a guard to
  -- install, nothing was done but the addition of the first guard, which failed.
  apply_desired_unguarded :
      (applied : Option DesiredState) (d : DesiredState) (s : a.State) {e : ApplyError a.Failure}
      (g : Rule) (gs : List Rule)
      → transition_guards (with_applied d.config applied) ≡ g ∷ gs
      → (apply_desired a applied d s).0 ≡ some (apply_failed e)
      → (apply_desired a applied d s).1 ≡ (a.add_rule g s).1
  unfolding apply_desired
  apply_desired_unguarded applied d s {e} g gs starts h = rw starts (
      guarded_by_unguarded g gs
        (switch_state a (g ∷ gs) (with_applied d.config applied) (applied_rules applied) d
          >> remove_guards a d.rules (g ∷ gs))
        s e (rw starts at h))
