-- ===== src/System/Live/Restored.antt =====
-- restoreDefaultTunRoutingLocked and restoreDefaultTunLinkLocked of sysnet.go, over a Manager of
-- routing/manager.go: what they leave in the Manager.
use Prim.Native.String.{String}
use sysnet_linux.Base.{
  All, ◌≡◌, refl, sym, ap, ◌∙◌, ◌⊎◌, inl, inr, List, [], ◌∷◌, ◌++◌, Option, none, some, Result, ok,
  err, subst, Bool-cases, Option-cases, List-cases,
}
use sysnet_linux.Routing.Model.{Snapshot}
use sysnet_linux.Routing.Config.{Config, validate}
use sysnet_linux.Routing.Compiler.{DesiredState, compile_desired_state}
use sysnet_linux.Routing.Adapter.{Adapter}
use sysnet_linux.Routing.Manager.Steps.{each_join, add_error, with_applied}
use sysnet_linux.Routing.Manager.{Manager, apply, rollback, sweep}
use sysnet_linux.Routing.Manager
use sysnet_linux.Routing.Manager.Outcomes.{Installs, apply-Installs}
use sysnet_linux.System.Options.{PrefixText}
use sysnet_linux.System.Updates.{Host, Restoring, restore_routing}
use sysnet_linux.Tun.Config.{TunLink, TunError}
use sysnet_linux.System.Live.{SharedKernel, Live, Failure, in_tun, read_in_tun, in_manager, live}

-- The Manager has applied what it compiled from a configuration and some snapshot.
abbrev pub HasApplied : Config → Manager → Type 0
HasApplied c m =
    (snapshot : Snapshot) × (d : DesiredState) × (compile_desired_state c snapshot ≡ ok d)
    × (m.applied ≡ some d)

-- Rollback leaves the Manager as it was, or with nothing applied.
rollback-keeps :
    (a : Adapter) (c : Config) (m : Manager) (s : a.State)
    → ((rollback a c m s).1 ≡ m) ⊎ ((rollback a c m s).1.applied ≡ none)
unfolding rollback
rollback-keeps a c m s = elim (Bool-cases m.closed) [
  | inl shut ↦ inl (simp (shut, rollback) refl)
  | inr open_ ↦ elim (Option-cases (validate c)) [
    | inr (x, e) ↦ inl (simp (open_, e, rollback) refl)
    | inl valid ↦ elim (List-cases (sweep a (with_applied c m.applied) s).0) [
      | inl e ↦ inr (simp (open_, valid, e, rollback) refl)
      | inr (x, xs, e) ↦ inl (simp (open_, valid, e, rollback) refl)
    ]
  ]
]

module _ (l : TunLink) (a : Adapter) (v : SharedKernel l a) (x : PrefixText) where
  abbrev pub host : Host
  host = live l a v x

  abbrev pub State : Type 0
  State = Live l a v

  abbrev pub KeepsManager : (State → Option (Failure l a v) × State) → Type 0
  KeepsManager f = (s : State) → (f s).1.manager ≡ s.manager

  pub in_tun-manager :
      (s : State) (r : Option (TunError l.addresses.Failure) × l.addresses.State)
      → (in_tun l a v s r).1.manager ≡ s.manager
  in_tun-manager s (none, t) = refl
  in_tun-manager s (some e, t) = refl

  pub read_in_tun-manager :
      (s : State) (r : Result (TunError l.addresses.Failure) (List String) × l.addresses.State)
      → (read_in_tun l a v s r).1.manager ≡ s.manager
  read_in_tun-manager s (ok r, t) = refl
  read_in_tun-manager s (err e, t) = refl

  pub restored-manager :
      (back : Restoring x host)
      → All KeepsManager back
      → (s : State) → (each_join (λ f. f) back s).1.manager ≡ s.manager
  unfolding each_join
  restored-manager [] k s = refl
  restored-manager (f ∷ fs) k s = restored-manager fs k.1 (f s).1 ∙ k.0 s

  module _ (old : Config) where
    abbrev pub Rests : Manager → Type 0
    Rests m = HasApplied old m ⊎ (m.applied ≡ none)

    -- What a restoration leaves, by its errors.
    abbrev pub Ends : List (Failure l a v) × State → Type 0
    Ends ([], s) = HasApplied old s.manager
    Ends (e ∷ es, s) = Rests s.manager

    Ends-Rests : (r : List (Failure l a v) × State) → Ends r → Rests r.1.manager
    Ends-Rests ([], s) h = inl h
    Ends-Rests (e ∷ es, s) h = h

    add_error-Ends :
        (o : Option (Failure l a v)) (r : List (Failure l a v) × State)
        → Ends r
        → Ends (add_error o r.0, r.1)
    add_error-Ends none r h = h
    add_error-Ends (some e) r h = Ends-Rests r h

    applied-Ends : (s : State) → Rests s.manager → Ends (each_join (λ f. f) (host.apply old ∷ []) s)
    unfolding each_join
    applied-Ends s h =
        of (apply a old s.manager (v.routing_view s.kernel))
          (apply-Installs a old s.manager (v.routing_view s.kernel))
      where
        of :
            (r : Manager.Outcome a)
            → Installs a s.manager old r
            → Ends (add_error (in_manager l a v s r).0 [], (in_manager l a v s r).1)
        of (none, m, t) (snapshot, d, c, e) = (snapshot, d, c, ap (λ y. y.applied) e)
        of (some e, m, t) i = subst Rests (sym i) h

    rolled_back-Rests :
        (c : Config) (s : State) → Rests s.manager → Rests (host.rollback c s).1.manager
    rolled_back-Rests c s h =
        of (rollback a c s.manager (v.routing_view s.kernel))
          (rollback-keeps a c s.manager (v.routing_view s.kernel))
      where
        of :
            (r : Manager.Outcome a)
            → (r.1 ≡ s.manager) ⊎ (r.1.applied ≡ none)
            → Rests (in_manager l a v s r).1.manager
        of (none, m, t) (inl e) = subst Rests (sym e) h
        of (none, m, t) (inr e) = inr e
        of (some x, m, t) (inl e) = subst Rests (sym e) h
        of (some x, m, t) (inr e) = inr e

    pub restored-Ends :
        (back : Restoring x host) (new : Config)
        → All KeepsManager back
        → (s : State) → Rests s.manager
        → Ends (each_join (λ f. f) (back ++ restore_routing x host old new) s)
    unfolding each_join
    restored-Ends [] new k s h =
        add_error-Ends (host.rollback new s).0
          (each_join (λ f. f) (host.apply old ∷ []) (host.rollback new s).1)
          (applied-Ends (host.rollback new s).1 (rolled_back-Rests new s h))
    restored-Ends (f ∷ fs) new k s h =
        add_error-Ends (f s).0 (each_join (λ f. f) (fs ++ restore_routing x host old new) (f s).1)
          (restored-Ends fs new k.1 (f s).1 (subst Rests (sym (k.0 s)) h))
