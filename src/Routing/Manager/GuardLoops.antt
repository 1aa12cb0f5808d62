-- ===== src/Routing/Manager/GuardLoops.antt =====
-- The loops that add the transition guards and remove them again.
use mathlib.Core.List.{Memᴰ}
use sysnet_linux.Base.{
  ◌≡◌, refl, sym, subst, ◌≢◌, ◌⊎◌, inl, inr, Bool, true, List, [], ◌∷◌, All, none, some, arith,
  Option-cases,
}
use sysnet_linux.Routing.Model.{Rule, rule_unreachable}
use sysnet_linux.Routing.Adapter.{Adapter, AdapterLaws}
use sysnet_linux.Routing.Manager.Listing.{listed_rule}
use sysnet_linux.Routing.Manager.Owned.{AreDistinct}
use sysnet_linux.Routing.Manager.Steps.{
  ApplyError, each_until, install_guards, remove_guards, remove_guard_unless_desired,
}
use sysnet_linux.Routing.Manager.Guards.{Keeps}

module _ (a : Adapter) (laws : AdapterLaws a) where
  open laws use {Holds}

  -- Some guard of the list is in the kernel.
  abbrev pub SomeGuard : List Rule → a.State → Type 0
  SomeGuard guards s = (g : Rule) × Memᴰ g guards × Holds g s

  install_guards-Keeps :
      (q : Rule) (b : Bool) (gs : List Rule) (s : a.State)
      → Holds q s
      → Holds q (install_guards a b gs s).2
  unfolding install_guards
  install_guards-Keeps q b [] s h = h
  install_guards-Keeps q b (g ∷ gs) s h = elim (Option-cases (a.add_rule g s).0) [
    | inl e ↦
        rw (e, install_guards)
          (install_guards-Keeps q true gs (a.add_rule g s).1 (laws.add_keeps q g s h))
    | inr (x, e) ↦ rw (e, install_guards) (laws.add_keeps q g s h)
  ]

  -- When no addition fails, every guard is there.
  pub install_guards-all :
      (q : Rule) (b : Bool) (gs : List Rule) (s : a.State)
      → (install_guards a b gs s).0 ≡ none
      → Memᴰ q gs
      → Holds q (install_guards a b gs s).2
  unfolding install_guards
  install_guards-all q b [] s h m = elim m [ ]
  install_guards-all q b (g ∷ gs) s h m = elim (Option-cases (a.add_rule g s).0) [
    | inl e ↦
        rw (e, install_guards)
          (first_or_later m e
            (install_guards-all q true gs (a.add_rule g s).1 (rw (e, install_guards) at h)))
    | inr (x, e) ↦ absurd (ground arith)
  ]
    where
      first_or_later :
          Memᴰ q (g ∷ gs)
          → (a.add_rule g s).0 ≡ none
          → (Memᴰ q gs → Holds q (install_guards a true gs (a.add_rule g s).1).2)
          → Holds q (install_guards a true gs (a.add_rule g s).1).2
      first_or_later (Memᴰ.head p) e later =
          install_guards-Keeps q true gs (a.add_rule g s).1
            (subst (λ r. Holds r (a.add_rule g s).1) (sym p) (laws.add_holds g s e))
      first_or_later (Memᴰ.tail r) e later = later r

  -- The flag tells the truth: it is set only when a guard of the list, or one before, was added.
  pub install_guards-some :
      (b : Bool) (gs : List Rule) (s : a.State)
      → (install_guards a b gs s).1 ≡ true
      → (b ≡ true) ⊎ SomeGuard gs (install_guards a b gs s).2
  unfolding install_guards
  install_guards-some b [] s h = inl h
  install_guards-some b (g ∷ gs) s h = elim (Option-cases (a.add_rule g s).0) [
    | inl e ↦
        rw (e, install_guards)
          (inr (
            g,
            Memᴰ.head refl,
            install_guards-Keeps g true gs (a.add_rule g s).1 (laws.add_holds g s e),
          ))
    | inr (x, e) ↦ inl (rw (e, install_guards) at h)
  ]

  delete_keeps_guard :
      (q g : Rule) (s : a.State)
      → q.action ≡ rule_unreachable
      → g.action ≡ rule_unreachable
      → g ≢ q
      → Holds q s
      → Holds q (a.delete_rule g s).1
  unfolding listed_rule
  delete_keeps_guard q g s sq sg n h =
      laws.delete_keeps_unreachable q g s sq n (λ e. ground arith) h

  remove_guard-Keeps :
      (q g : Rule) (desired : List Rule)
      → q.action ≡ rule_unreachable
      → g.action ≡ rule_unreachable
      → g ≢ q
      → Keeps (Holds q) (remove_guard_unless_desired a desired g)
  unfolding remove_guard_unless_desired
  remove_guard-Keeps q g desired sq sg n s h = ground (arith, delete_keeps_guard q g s sq sg n)

  remove_guard_failed :
      (g : Rule) (desired : List Rule) (s : a.State) {x : a.Failure}
      → Holds g s
      → (remove_guard_unless_desired a desired g s).0 ≡ some x
      → Holds g (remove_guard_unless_desired a desired g s).1
  unfolding remove_guard_unless_desired
  remove_guard_failed g desired s h e = ground (arith, laws.failed_delete_keeps g g s)

  others_stay :
      (g : Rule) (rest desired : List Rule) (s : a.State)
      → g.action ≡ rule_unreachable
      → All (λ q. q.action ≡ rule_unreachable) rest
      → All (λ q. g ≢ q) rest
      → All (λ q. Holds q s) rest
      → All (λ q. Holds q (remove_guard_unless_desired a desired g s).1) rest
  others_stay g [] desired s sg sr d h = tt
  others_stay g (q ∷ rest) desired s sg sr d h = (
    remove_guard-Keeps q g desired sr.0 sg d.0 s h.0,
    others_stay g rest desired s sg sr.1 d.1 h.1,
  )

  -- A removal of guards that fails leaves the guard on which it failed.
  removal_failed :
      (desired gs : List Rule) (s : a.State) {x : a.Failure}
      → All (λ g. g.action ≡ rule_unreachable) gs
      → AreDistinct gs
      → All (λ g. Holds g s) gs
      → (each_until (remove_guard_unless_desired a desired) gs s).0 ≡ some x
      → SomeGuard gs (each_until (remove_guard_unless_desired a desired) gs s).1
  unfolding each_until
  removal_failed desired [] s stop d h e = absurd (ground arith)
  removal_failed desired (g ∷ gs) s stop d h e =
      elim (Option-cases (remove_guard_unless_desired a desired g s).0) [
        | inl p ↦
            rw (p, each_until)
              (let (k, m, held) =
                  removal_failed desired gs (remove_guard_unless_desired a desired g s).1 stop.1 d.1
                    (others_stay g gs desired s stop.0 stop.1 d.0 h.1) (rw (p, each_until) at e) in
                (k, Memᴰ.tail m, held))
        | inr (y, p) ↦ rw (p, each_until) (g, Memᴰ.head refl, remove_guard_failed g desired s h.0 p)
      ]

  pub remove_guards_failed :
      (desired gs : List Rule) (s : a.State) {e : ApplyError a.Failure}
      → All (λ g. g.action ≡ rule_unreachable) gs
      → AreDistinct gs
      → All (λ g. Holds g s) gs
      → (remove_guards a desired gs s).0 ≡ some e
      → SomeGuard gs (remove_guards a desired gs s).1
  unfolding remove_guards
  remove_guards_failed desired gs s stop d h e =
      elim (Option-cases (each_until (remove_guard_unless_desired a desired) gs s).0) [
        | inl p ↦ absurd (ground arith)
        | inr (x, p) ↦ removal_failed desired gs s stop d h p
      ]
