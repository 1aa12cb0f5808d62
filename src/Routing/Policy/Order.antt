-- ===== src/Routing/Policy/Order.antt =====
-- The kernel's order of the compiled rules: for a block that does not wrap, that of the list.
use mathlib.Core.List.{append-nil}
use sysnet_linux.Base.{
  Bool, ℤ, eq_ℤ, eq_ℤ_iff, ◌≡◌, refl, true, false, List, [], ◌∷◌, ◌++◌, All, ◌+ℤ◌, pos, arith,
  keep_if,
}
use sysnet_linux.Base.Sort.{sort, insert_sorted}
use sysnet_linux.Routing.Unix.{af_inet, af_inet6}
use sysnet_linux.Routing.Model.{Rule}
use sysnet_linux.Routing.Config.{Config, family_constants, family_enabled}
use sysnet_linux.Routing.Config.Valid.{IsValidConfig}
use sysnet_linux.Routing.Compiler.{number_from, compile_rules, rules_for}
use sysnet_linux.Routing.Compiler.Priorities.{IsAscending, HasExactBlock, compile_rules-priorities}
use sysnet_linux.Routing.Policy.{Packet, decide_in_turn, decide, by_priority, is_of}

sort-ascending : (rs : List Rule) → IsAscending rs → sort by_priority rs ≡ rs
unfolding sort insert_sorted
sort-ascending [] h = refl
sort-ascending (r ∷ []) h = refl
sort-ascending (r ∷ s ∷ rs) h = rw (sort-ascending (s ∷ rs) h.1) (ground (arith, h.0))

number_from-family :
    (f next : ℤ) (rs : List Rule)
    → All (λ r. r.family ≡ f) rs
    → All (λ r. r.family ≡ f) (number_from next rs)
unfolding number_from
number_from-family f next [] h = tt
number_from-family f next (r ∷ rs) h = (h.0, number_from-family f (next +ℤ pos 1) rs h.1)

pub compile_rules-family : (c : Config) (f : ℤ) → All (λ r. r.family ≡ f) (compile_rules c f)
unfolding compile_rules
compile_rules-family c f = ground arith

keep_own :
    (f g : ℤ) (rs : List Rule)
    → eq_ℤ f g ≡ true
    → All (λ r. r.family ≡ f) rs
    → keep_if (is_of g) rs ≡ rs
keep_own f g [] e h = refl
keep_own f g (r ∷ rs) e h = rw (h.0, e, keep_own f g rs e h.1) refl

keep_none :
    (f g : ℤ) (rs : List Rule)
    → eq_ℤ f g ≡ false
    → All (λ r. r.family ≡ f) rs
    → keep_if (is_of g) rs ≡ []
keep_none f g [] e h = refl
keep_none f g (r ∷ rs) e h = rw (h.0, e, keep_none f g rs e h.1) refl

keep_if-append :
    (g : ℤ) (xs ys : List Rule)
    → keep_if (is_of g) (xs ++ ys) ≡ keep_if (is_of g) xs ++ keep_if (is_of g) ys
keep_if-append g [] ys = refl
keep_if-append g (x ∷ xs) ys = ground (arith, keep_if-append g xs ys)

-- The rules of a covered family, of all rules.
pub keep_if-rules_for :
    (c : Config) (g : ℤ)
    → family_enabled c.families g ≡ true
    → keep_if (is_of g) (rules_for c (family_constants c.families)) ≡ compile_rules c g
unfolding rules_for family_constants family_enabled
keep_if-rules_for c g h = ground (
  arith,
  append-nil (compile_rules c af_inet),
  append-nil (compile_rules c af_inet6),
  keep_if-append g (compile_rules c af_inet) (compile_rules c af_inet6),
  keep_own af_inet g (compile_rules c af_inet),
  keep_own af_inet6 g (compile_rules c af_inet6),
  keep_none af_inet g (compile_rules c af_inet),
  keep_none af_inet6 g (compile_rules c af_inet6),
  compile_rules-family c af_inet,
  compile_rules-family c af_inet6,
  append-nil (compile_rules c g),
  eq_ℤ_iff g af_inet,
  eq_ℤ_iff g af_inet6,
)

-- The rules that a valid configuration compiles to are gone through in their order.
pub decide-rules_for :
    (c : Config) (found : ℤ → Bool) (p : Packet)
    → IsValidConfig c
    → HasExactBlock c
    → family_enabled c.families p.family ≡ true
    → decide found p (rules_for c (family_constants c.families))
      ≡ decide_in_turn found p (compile_rules c p.family)
unfolding decide
decide-rules_for c found p v exact h =
    rw
      (
        keep_if-rules_for c p.family h,
        sort-ascending (compile_rules c p.family) (compile_rules-priorities c v exact p.family).0,
      )
      refl
