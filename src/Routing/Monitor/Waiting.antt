-- ===== src/Routing/Monitor/Waiting.antt =====
-- Between a change of the main table and the refresh that follows it, the transition guards stand.
use mathlib.Core.List.{Memᴰ}
use sysnet_linux.Base.{
  ◌≡◌, refl, sym, subst, inl, inr, Bool-cases, ℤ, eq_ℤ, true, false, List, [], ◌∷◌, none, some,
  arith, Option-cases, ◌∙◌,
}
use sysnet_linux.Routing.Unix.{rt_table_main}
use sysnet_linux.Routing.Model.{Rule}
use sysnet_linux.Routing.Config.{Config}
use sysnet_linux.Routing.Adapter.{Adapter, AdapterLaws}
use sysnet_linux.Routing.Manager.{family_guards}
use sysnet_linux.Routing.Manager.Steps.{each_until}
use sysnet_linux.Routing.Manager.Guards.{each_until-Keeps}
use sysnet_linux.Routing.Monitor.{
  System, Move, Moves, on_update, on_end, begin_route_change, refreshed_config,
}

module _ (a : Adapter) where
  open a use {State, Failure}

  -- The loop receives an update or loses its subscription.
  abbrev pub IsWait : {x y : System a} → Move a x y → Type 0
  IsWait (Move.updates table x r s) = Unit
  IsWait (Move.ends x r s) = Unit
  IsWait (Move.expires answer d x r t) = ⊥
  IsWait (Move.stops x r d) = ⊥
  IsWait (Move.discards x r) = ⊥
  IsWait (Move.drained x r) = ⊥
  IsWait (Move.applies c x) = ⊥
  IsWait (Move.refreshes x) = ⊥
  IsWait (Move.rolls_back c x) = ⊥
  IsWait (Move.closes x o) = ⊥
  IsWait (Move.closed x c r n e) = ⊥

  abbrev pub AreWaits : {x y : System a} → Moves a x y → Type 0
  AreWaits (Moves.starts x) = Unit
  AreWaits (Moves.follows r m) = AreWaits r × IsWait m

  on_update_waits :
      (table : ℤ) (x : System a)
      → x.loop.pending ≡ true
      → ((on_update a table x).kernel ≡ x.kernel) × ((on_update a table x).loop.pending ≡ true)
  unfolding on_update
  on_update_waits table x p = elim (Bool-cases (eq_ℤ table rt_table_main)) [
    | inl e ↦ simp (e, p, on_update) (refl, refl)
    | inr e ↦ simp (e, on_update) (refl, p)
  ]

  wait_keeps :
      {x y : System a} (m : Move a x y)
      → IsWait m
      → x.loop.pending ≡ true
      → (y.kernel ≡ x.kernel) × (y.loop.pending ≡ true)
  unfolding on_end
  wait_keeps (Move.updates table x r s) w p = on_update_waits table x p
  wait_keeps (Move.ends x r s) w p = (simp p, refl)
  wait_keeps (Move.expires answer d x r t) w p = elim w [ ]
  wait_keeps (Move.stops x r d) w p = elim w [ ]
  wait_keeps (Move.discards x r) w p = elim w [ ]
  wait_keeps (Move.drained x r) w p = elim w [ ]
  wait_keeps (Move.applies c x) w p = elim w [ ]
  wait_keeps (Move.refreshes x) w p = elim w [ ]
  wait_keeps (Move.rolls_back c x) w p = elim w [ ]
  wait_keeps (Move.closes x o) w p = elim w [ ]
  wait_keeps (Move.closed x c r n e) w p = elim w [ ]

  waits_keep :
      {x y : System a} (r : Moves a x y)
      → AreWaits r
      → x.loop.pending ≡ true
      → (y.kernel ≡ x.kernel) × (y.loop.pending ≡ true)
  waits_keep (Moves.starts x) w p = (refl, p)
  waits_keep (Moves.follows r m) w p =
      let (k, q) = waits_keep r w.0 p in let (k', q') = wait_keeps m w.1 q in (k' ∙ k, q')

module _ (a : Adapter) (laws : AdapterLaws a) where
  open laws use {Holds}

  -- When no addition fails, every rule is there.
  each_added :
      (q : Rule) (gs : List Rule) (s : a.State)
      → (each_until a.add_rule gs s).0 ≡ none
      → Memᴰ q gs
      → Holds q (each_until a.add_rule gs s).1
  unfolding each_until
  each_added q [] s h m = elim m [ ]
  each_added q (g ∷ gs) s h m = elim (Option-cases (a.add_rule g s).0) [
    | inr (x, e) ↦ absurd (ground arith)
    | inl e ↦
        rw (e, each_until)
          (elim m [
            | Memᴰ.head p ↦
                each_until-Keeps (Holds q) a.add_rule gs (λ r t k. laws.add_keeps q r t k)
                  (a.add_rule g s).1
                  (subst (λ r. Holds r (a.add_rule g s).1) (sym p) (laws.add_holds g s e))
            | Memᴰ.tail k ↦ each_added q gs (a.add_rule g s).1 (rw (e, each_until) at h) k
          ])
  ]

  begin_route_change-added :
      (c : Config) (x : System a)
      → refreshed_config x.manager ≡ some c
      → (begin_route_change a x.manager x.kernel).0 ≡ none
      → (g : Rule) → Memᴰ g (family_guards a c)
      → Holds g (begin_route_change a x.manager x.kernel).1
  unfolding begin_route_change
  begin_route_change-added c x e ok_ g m =
      rw (e, begin_route_change)
        (each_added g (family_guards a c) x.kernel (rw (e, begin_route_change) at ok_) m)

  -- When an open Manager has applied a policy that is not strict, and an update of the main table
  -- finds nothing pending and the guards are added with no error, then through any number of
  -- further updates and losses of the subscription, the transition guard of every family of the
  -- policy is in the kernel.
  pub waiting_guarded :
      (c : Config) (x : System a) {y : System a} (r : Moves a (on_update a rt_table_main x) y)
      → refreshed_config x.manager ≡ some c
      → x.loop.pending ≡ false
      → (begin_route_change a x.manager x.kernel).0 ≡ none
      → AreWaits a r
      → (g : Rule) → Memᴰ g (family_guards a c)
      → Holds g y.kernel
  unfolding on_update
  waiting_guarded c x {y} r e p ok_ w g m =
      let (k, q) = waits_keep a r w (simp (p, on_update) refl) in
      subst (Holds g) (sym (k ∙ simp (p, on_update) refl)) (begin_route_change-added c x e ok_ g m)
