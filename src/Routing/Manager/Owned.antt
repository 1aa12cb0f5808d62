-- ===== src/Routing/Manager/Owned.antt =====
-- The transition guards that a Manager installs: unreachable rules, each listed once.
use mathlib.Core.List.{Memᴰ}
use sysnet_linux.Base.{
  ℤ, ◌≡◌, refl, sym, ◌≢◌, inl, inr, List, [], ◌∷◌, map, All, All-append, arith, any, any-false,
  Bool-cases,
}
use sysnet_linux.Base.Unseen.{unseen}
use sysnet_linux.Routing.Model.{Rule, rule_unreachable, rule_eq, rule_eq_iff}
use sysnet_linux.Routing.Config.{Config, family_constants}
use sysnet_linux.Routing.Compiler.{transition_guard}
use sysnet_linux.Routing.Manager.Listing.{flat, transition_guards}

abbrev pub AreDistinct : List Rule → Type 0
AreDistinct [] = Unit
AreDistinct (r ∷ rs) = All (λ q. r ≢ q) rs × AreDistinct rs

-- Nothing that was seen comes out again.
unseen_fresh :
    (q : Rule) (seen rs : List Rule) → Memᴰ q seen → All (λ r. q ≢ r) (unseen rule_eq seen rs)
unfolding unseen
unseen_fresh q seen [] m = tt
unseen_fresh q seen (r ∷ rs) m = elim (Bool-cases (any (rule_eq r) seen)) [
  | inl e ↦ rw e (unseen_fresh q seen rs m)
  | inr e ↦ rw e (
    λ p. ground (arith, any-false (rule_eq r) seen e m, (rule_eq_iff r q).1 (sym p)),
    unseen_fresh q (r ∷ seen) rs (Memᴰ.tail m),
  )
]

pub unseen_distinct : (seen rs : List Rule) → AreDistinct (unseen rule_eq seen rs)
unfolding unseen
unseen_distinct seen [] = tt
unseen_distinct seen (r ∷ rs) = elim (Bool-cases (any (rule_eq r) seen)) [
  | inl e ↦ rw e (unseen_distinct seen rs)
  | inr e ↦ rw e (unseen_fresh r (r ∷ seen) rs (Memᴰ.head refl), unseen_distinct (r ∷ seen) rs)
]

-- A property of all items is one of those that come out.
unseen-All : (P : Rule → Type 0) (seen rs : List Rule) → All P rs → All P (unseen rule_eq seen rs)
unfolding unseen
unseen-All P seen [] h = tt
unseen-All P seen (r ∷ rs) h = elim (Bool-cases (any (rule_eq r) seen)) [
  | inl e ↦ rw e (unseen-All P seen rs h.1)
  | inr e ↦ rw e (h.0, unseen-All P (r ∷ seen) rs h.1)
]

abbrev IsStop : Rule → Type 0
IsStop r = r.action ≡ rule_unreachable

guards-IsStop : (c : Config) (fs : List ℤ) → All IsStop (map (transition_guard c) fs)
unfolding transition_guard
guards-IsStop c [] = tt
guards-IsStop c (f ∷ fs) = (refl, guards-IsStop c fs)

All-guards-IsStop :
    (cs : List Config)
    → All IsStop (flat (λ c. map (transition_guard c) (family_constants c.families)) cs)
All-guards-IsStop [] = tt
All-guards-IsStop (c ∷ cs) =
    All-append IsStop (map (transition_guard c) (family_constants c.families)) _
      (guards-IsStop c (family_constants c.families)) (All-guards-IsStop cs)

pub transition_guards_stop :
    (cs : List Config) → All (λ r. r.action ≡ rule_unreachable) (transition_guards cs)
unfolding transition_guards
transition_guards_stop cs = unseen-All IsStop [] _ (All-guards-IsStop cs)

pub transition_guards_distinct : (cs : List Config) → AreDistinct (transition_guards cs)
unfolding transition_guards
transition_guards_distinct cs = unseen_distinct [] _
