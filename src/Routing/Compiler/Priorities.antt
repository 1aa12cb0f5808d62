-- ===== src/Routing/Compiler/Priorities.antt =====
-- The compiled rules stand in the order of their priorities, inside the owned block, and leave the
-- slot of the transition guard free.
use sysnet_linux.Base.{
  ℕ, ◌+◌, ◌^◌, ◌≤◌, ◌<◌, ℤ, pos, pos_part, ◌+ℤ◌, pos-+ℤ, ◌<ℤ◌, ◌≤ℤ◌, ◌≡◌, refl, ◌≢◌, not, List, [],
  ◌∷◌, All, length, arith, if◌then◌else◌,
}
use sysnet_linux.Routing.Model.{Rule, rule_unreachable}
use sysnet_linux.Routing.Config.{
  Config, rule_offset_transition_guard, effective_tunnel_families, family_enabled,
}
use sysnet_linux.Routing.Config.Valid.{IsValidConfig}
use sysnet_linux.Routing.Compiler.{compile_rules, number_from, mark_rule, mode_rules, all_rule}

-- Each rule comes before the next one.
abbrev pub IsAscending : List Rule → Type 0
IsAscending [] = Unit
IsAscending (r ∷ []) = Unit
IsAscending (r ∷ s ∷ rs) = (r.priority <ℤ s.priority) × IsAscending (s ∷ rs)

-- The sum of base and span is exact.
abbrev pub HasExactBlock : Config → Type 0
HasExactBlock c = pos_part c.priority_base + pos_part c.priority_span < 2 ^ 63

-- In the block [base, base + span), and not in the guard's slot.
abbrev pub IsOwnPriority : Config → ℤ → Type 0
IsOwnPriority c p =
    (c.priority_base ≤ℤ p)
    × (p <ℤ (c.priority_base +ℤ c.priority_span))
    × (p ≢ (c.priority_base +ℤ rule_offset_transition_guard))

abbrev Within : ℕ → ℕ → ℤ → Type 0
Within lo hi p = (k : ℕ) × (p ≡ pos k) × (lo ≤ k) × (k < hi)

number_from-Within :
    (lo n m : ℕ) (rs : List Rule)
    → lo ≤ n
    → n + length rs ≤ m
    → m < 2 ^ 63
    → All (λ r. Within lo m r.priority) (number_from (pos n) rs)
unfolding number_from
number_from-Within lo n m [] l h b = tt
number_from-Within lo n m (r ∷ rs) l h b = (
  (n, refl, l, omega arith),
  rw (pos-+ℤ n 1 (omega arith)) (number_from-Within lo (n + 1) m rs (omega arith) (omega arith) b),
)

number_from-IsAscending :
    (z : ℤ) (n : ℕ) (rs : List Rule)
    → z ≡ pos n
    → n + length rs < 2 ^ 63
    → IsAscending (number_from z rs)
unfolding number_from
number_from-IsAscending z n [] e h = tt
number_from-IsAscending z n (r ∷ []) e h = tt
number_from-IsAscending z n (r ∷ s ∷ rs) e h = (
  rw (next, e) (omega arith),
  number_from-IsAscending (z +ℤ pos 1) (n + 1) (s ∷ rs) next (omega arith),
)
  where
    next : z +ℤ pos 1 ≡ pos (n + 1)
    next = rw e (pos-+ℤ n 1 (omega arith))

length-mode_rules : (c : Config) (f : ℤ) → length (mode_rules c.mode c.strictness c f) ≤ 5
unfolding mode_rules
length-mode_rules c f = ground arith

cons-IsAscending :
    (r : Rule) (z : ℤ) (rs : List Rule)
    → r.priority <ℤ z
    → IsAscending (number_from z rs)
    → IsAscending (r ∷ number_from z rs)
unfolding number_from
cons-IsAscending r z [] h a = tt
cons-IsAscending r z (s ∷ rs) h a = (h, a)

-- The part of compileRules that counts up.
abbrev counted : Config → ℤ → List Rule
counted c f =
    if not (family_enabled (effective_tunnel_families c) f)
    then all_rule f rule_unreachable (pos 0) ∷ []
    else mode_rules c.mode c.strictness c f

length-counted : (c : Config) (f : ℤ) → length (counted c f) ≤ 5
length-counted c f = ground (arith, length-mode_rules c f)

abbrev base : Config → ℕ
base c = pos_part c.priority_base

module _ (c : Config) (v : IsValidConfig c) (exact : HasExactBlock c) where
  in_block : (k : ℕ) → k ≤ 32 → c.priority_base +ℤ pos k ≡ pos (base c + k)
  in_block k h = ground (arith, v.base_positive, v.span_wide, pos-+ℤ (pos_part c.priority_base) k)

  block_end : c.priority_base +ℤ c.priority_span ≡ pos (base c + pos_part c.priority_span)
  block_end = ground (
    arith,
    v.base_positive,
    v.span_wide,
    pos-+ℤ (pos_part c.priority_base) (pos_part c.priority_span),
  )

  owned : (p : ℤ) → Within (base c + 3) (base c + 9) p → IsOwnPriority c p
  owned p (k, e, l, h) = ground (arith, block_end, in_block 2, v.base_positive, v.span_wide)

  first_slot : (k : ℕ) → k < 2 → IsOwnPriority c (c.priority_base +ℤ pos k)
  first_slot k h = ground (arith, block_end, in_block k, in_block 2, v.base_positive, v.span_wide)

  counted-Within :
      (f : ℤ)
      → All
          (λ r. Within (base c + 3) (base c + 9) r.priority)
          (number_from (pos (base c + 3)) (counted c f))
  counted-Within f =
      number_from-Within (base c + 3) (base c + 3) (base c + 9) (counted c f) (omega arith)
        (omega (arith, length-counted c f)) (omega (arith, v.span_wide, exact))

  All-owned :
      (rs : List Rule)
      → All (λ r. Within (base c + 3) (base c + 9) r.priority) rs
      → All (λ r. IsOwnPriority c r.priority) rs
  All-owned [] h = tt
  All-owned (r ∷ rs) h = (owned r.priority h.0, All-owned rs h.1)

  -- For a valid configuration whose sum of base and span does not wrap, the compiled rules of a
  -- family have strictly increasing priorities, in the order of the list; all priorities lie in the
  -- owned block, and none is that of the transition guard.
  pub compile_rules-priorities :
      (f : ℤ)
      → IsAscending (compile_rules c f) × All (λ r. IsOwnPriority c r.priority) (compile_rules c f)
  unfolding compile_rules mark_rule
  compile_rules-priorities f = (
    (
      rw (in_block 0 (omega arith), in_block 1 (omega arith)) (omega arith),
      cons-IsAscending
          (mark_rule f (c.priority_base +ℤ pos 1) rule_unreachable (pos 0) c.app_bypass_mark
            c.app_bypass_mask)
          _ (counted c f) (rw (in_block 1 (omega arith), in_block 3 (omega arith)) (omega arith))
          (number_from-IsAscending _ (base c + 3) (counted c f) (in_block 3 (omega arith))
            (omega (arith, length-counted c f, v.span_wide, exact))),
    ),
    (
      first_slot 0 (omega arith),
      (first_slot 1 (omega arith), All-owned _ (rw (in_block 3 (omega arith)) (counted-Within f))),
    ),
  )
