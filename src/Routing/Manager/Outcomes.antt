-- ===== src/Routing/Manager/Outcomes.antt =====
-- What each operation of a Manager leaves behind, on success and on every error.
use sysnet_linux.Base.{
  ◌≡◌, refl, inl, inr, Bool, true, false, List, [], ◌∷◌, none, some, ok, Option-cases, Result-cases,
  Bool-cases, List-cases,
}
use sysnet_linux.Routing.Model.{Snapshot}
use sysnet_linux.Routing.Config.{Config, validate, family_constants}
use sysnet_linux.Routing.Compiler.{DesiredState, compile_desired_state}
use sysnet_linux.Routing.Adapter.{Adapter}
use sysnet_linux.Routing.Manager.Steps.{
  SweepError, rollback_incomplete, snapshot_main, with_applied, apply_desired, install_guards,
  manager_closed,
}
use sysnet_linux.Routing.Manager.{
  Manager, Outcome, apply_compiled, apply_linked, apply, finish_refresh, refresh_guarded,
  refresh_locked, refresh, refill_safe_table, family_guards, rollback, sweep,
}

-- An operation that installs a compiled state: on an error the Manager is as it was, and on success
-- only its applied state has changed, to the one compiled from the configuration and some snapshot.
abbrev pub Installs : (a : Adapter) → Manager → Config → Outcome a → Type 0
Installs a m c (none, m', s) =
    (snapshot : Snapshot) × (d : DesiredState) × (compile_desired_state c snapshot ≡ ok d)
    × (m' ≡ record m { applied = some d })
Installs a m c (some e, m', s) = m' ≡ m

module _ (a : Adapter) where
  apply_compiled-Installs :
      (m : Manager) (c : Config) (snapshot : Snapshot) (s : a.State)
      → Installs a m c (apply_compiled a m (compile_desired_state c snapshot) s)
  unfolding apply_compiled
  apply_compiled-Installs m c snapshot s = elim (Result-cases (compile_desired_state c snapshot)) [
    | inr (x, e) ↦ rw (e, apply_compiled) refl
    | inl (d, e) ↦
        rw (e, apply_compiled)
          (elim (Option-cases (apply_desired a m.applied d s).0) [
            | inl p ↦ rw p (snapshot, d, e, refl)
            | inr (y, p) ↦ rw p refl
          ])
  ]

  apply_linked-Installs :
      (m : Manager) (c : Config) (s : a.State) → Installs a m c (apply_linked a c m s)
  unfolding apply_linked
  apply_linked-Installs m c s =
      elim (Result-cases (snapshot_main a (family_constants c.families) [] s).0) [
        | inl (snapshot, e) ↦ rw (e, apply_linked) (apply_compiled-Installs m c snapshot _)
        | inr (x, e) ↦ rw (e, apply_linked) refl
      ]

  -- Apply either fails and leaves the Manager as it was, or records as applied the state compiled
  -- from its configuration and some snapshot.
  pub apply-Installs : (c : Config) (m : Manager) (s : a.State) → Installs a m c (apply a c m s)
  unfolding apply
  apply-Installs c m s = elim (Bool-cases m.closed) [
    | inl shut ↦ simp (shut, apply) refl
    | inr open_ ↦
        simp (open_, apply)
          (elim (Option-cases (validate c)) [
            | inr (x, e) ↦ rw e refl
            | inl valid ↦ rw valid (elim (Option-cases (a.link_by_index c.tun_index s).0) [
              | inl e ↦ rw e (apply_linked-Installs m c _)
              | inr (x, e) ↦ rw e refl
            ])
          ])
  ]

  finish_refresh-Installs :
      (b : Bool) (m : Manager) (c : Config) (snapshot : Snapshot) (s : a.State)
      → Installs a m c (finish_refresh a b m (compile_desired_state c snapshot) s)
  unfolding finish_refresh
  finish_refresh-Installs b m c snapshot s =
      elim (Result-cases (compile_desired_state c snapshot)) [
        | inr (x, e) ↦ rw (e, finish_refresh) refl
        | inl (d, e) ↦
            rw (e, finish_refresh)
              (elim (Option-cases (refill_safe_table a d s).0) [
                | inl p ↦ rw p (snapshot, d, e, refl)
                | inr (y, p) ↦ rw p refl
              ])
      ]

  refresh_guarded-Installs :
      (b : Bool) (m : Manager) (c : Config) (s : a.State)
      → Installs a m c (refresh_guarded a c b m s)
  unfolding refresh_guarded
  refresh_guarded-Installs b m c s =
      elim (Result-cases (snapshot_main a (family_constants c.families) [] s).0) [
        | inl (snapshot, p) ↦ rw (p, refresh_guarded) (finish_refresh-Installs b m c snapshot _)
        | inr (x, p) ↦ rw (p, refresh_guarded) refl
      ]

  pub refresh_locked-Installs :
      (m : Manager) (c : Config) (s : a.State) → Installs a m c (refresh_locked a c m s)
  unfolding refresh_locked
  refresh_locked-Installs m c s =
      elim (Option-cases (install_guards a false (family_guards a c) s).0) [
        | inr (x, e) ↦ rw (e, refresh_locked) refl
        | inl e ↦ rw (e, refresh_locked) (refresh_guarded-Installs _ m c _)
      ]

  -- Refresh of an open Manager with an applied state either fails and leaves the Manager as it was,
  -- or records as applied the state compiled from the applied configuration and some snapshot.
  pub refresh-Installs :
      (m : Manager) (d : DesiredState) (s : a.State)
      → m.closed ≡ false
      → m.applied ≡ some d
      → Installs a m d.config (refresh a m s)
  unfolding refresh
  refresh-Installs m d s open_ e = simp (open_, e, refresh) (refresh_locked-Installs m d.config s)

  -- A closed Manager refuses every operation, and touches neither its state nor the kernel's.
  pub closed_refuses :
      (c : Config) (m : Manager) (s : a.State)
      → m.closed ≡ true
      → (apply a c m s ≡ (some manager_closed, m, s))
        × (refresh a m s ≡ (some manager_closed, m, s))
        × (rollback a c m s ≡ (some manager_closed, m, s))
  unfolding apply refresh rollback
  closed_refuses c m s shut = (simp shut, simp shut, simp shut)

  -- What a rollback returns and keeps, by the errors of its sweep.
  abbrev pub Forgets : Manager → List (SweepError a.Failure) → Outcome a → Type 0
  Forgets m [] (e, m', s) = (e ≡ none) × (m' ≡ record m { applied = none })
  Forgets m (x ∷ xs) (e, m', s) = (e ≡ some (rollback_incomplete (x ∷ xs))) × (m' ≡ m)

  -- Rollback of an open Manager with a valid configuration forgets the applied state if no listing
  -- and no deletion of its sweep failed; otherwise it leaves the Manager as it was and reports all
  -- failures of the sweep.
  pub rollback-Forgets :
      (c : Config) (m : Manager) (s : a.State)
      → m.closed ≡ false
      → validate c ≡ none
      → Forgets m (sweep a (with_applied c m.applied) s).0 (rollback a c m s)
  unfolding rollback
  rollback-Forgets c m s open_ valid =
      simp (open_, valid, rollback)
        (elim (List-cases (sweep a (with_applied c m.applied) s).0) [
          | inl e ↦ rw e (refl, refl)
          | inr (x, xs, e) ↦ rw e (refl, refl)
        ])
