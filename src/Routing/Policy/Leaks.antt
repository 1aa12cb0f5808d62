-- ===== src/Routing/Policy/Leaks.antt =====
-- Consequences for traffic that is not the VPN's own: where it may go, and that it never falls
-- through to the host's rules unless the configuration means it to.
use mathlib.Core.List.{Memᴰ}
use sysnet_linux.Base.Sort.{sort, mem-sort, mem-sort_of}
use sysnet_linux.Base.Unseen.{any_found}
use sysnet_linux.Base.{
  any, any-true, List, [], ◌∷◌, ◌&&◌, refl, All, All-mem, Bool-cases, ℤ, ◌≡◌, ◌⊎◌, inl, inr, Bool,
  true, false, arith, ok, sym, Option-cases, ==_iff, ◌∙◌,
}
use sysnet_linux.Base.Bits.{bit_and_under, bit_and_comm}
use sysnet_linux.Routing.Unix.{rt_table_main}
use sysnet_linux.Routing.Model.{Rule, Snapshot, rule_unreachable, RuleAction, rule_lookup}
use sysnet_linux.Routing.Config.{
  Config, mode_exclude, mode_include, strict, non_strict, family_enabled, validate,
  effective_tunnel_families,
}
use sysnet_linux.Routing.Config.Valid.{IsValidConfig, validate_iff}
use sysnet_linux.Routing.Compiler.{
  DesiredState, desired_state, compile_rules, compile_desired_state,
}
use sysnet_linux.Routing.Compiler.Routes.{compiled_state}
use sysnet_linux.Routing.Compiler.Priorities.{HasExactBlock}
use sysnet_linux.Routing.Policy.{
  Packet, via, unreachable, undecided, decide, decide_in_turn, by_priority, applies, selects_all,
  policy, has_app_mark, has_user_mark, selects,
}
use sysnet_linux.Routing.Policy.Order.{keep_if-rules_for}
use sysnet_linux.Routing.Policy.Decision.{decide-compile_desired_state}

-- A compiled configuration is valid.
pub compiled-IsValidConfig :
    (c : Config) (snapshot : Snapshot) {d : DesiredState}
    → compile_desired_state c snapshot ≡ ok d
    → IsValidConfig c
unfolding compile_desired_state
compiled-IsValidConfig c snapshot e = elim (Option-cases (validate c)) [
  | inl valid ↦ (validate_iff c).0 valid
  | inr (x, bad) ↦ absurd (ground arith)
]

both_marks :
    (c : Config) (p : Packet)
    → IsValidConfig c
    → has_app_mark c p ≡ true
    → has_user_mark c p ≡ true
    → ⊥
unfolding selects
both_marks c p v a u = v.apart (
    sym
      (bit_and_under p.mark c.app_bypass_mark c.app_bypass_mask c.user_mark_mask ((==_iff _ _).0 a))
    ∙ rw (bit_and_comm c.app_bypass_mask c.user_mark_mask)
        (bit_and_under p.mark c.user_mark c.user_mark_mask c.app_bypass_mask ((==_iff _ _).0 u)))

-- A packet that the user mark of a valid configuration selects is not selected by its bypass mark,
-- so that no packet has both roles.
marks_exclusive :
    (c : Config) (p : Packet)
    → IsValidConfig c
    → has_user_mark c p ≡ true
    → has_app_mark c p ≡ false
marks_exclusive c p v u = elim (Bool-cases (has_app_mark c p)) [
  | inl a ↦ absurd (both_marks c p v a u)
  | inr n ↦ n
]

abbrev is_unreachable : RuleAction → Bool
is_unreachable rule_unreachable = true
is_unreachable rule_lookup = false

-- A rule that applies to the packet uses the VPN table or is unreachable.
abbrev IsStrictRule : Config → Packet → Rule → Type 0
IsStrictRule c p r = applies r p ≡ true → (r.action ≡ rule_unreachable) ⊎ (r.table ≡ c.vpn_table)

abbrev is_stop : Packet → Rule → Bool
is_stop p r = applies r p && is_unreachable r.action

-- The strict rules, in any order, among which one that applies is unreachable.
decide_in_turn-strict :
    (c : Config) (found : ℤ → Bool) (p : Packet) (rs : List Rule)
    → ((r : Rule) → Memᴰ r rs → IsStrictRule c p r)
    → any (is_stop p) rs ≡ true
    → (decide_in_turn found p rs ≡ via c.vpn_table) ⊎ (decide_in_turn found p rs ≡ unreachable)
unfolding decide_in_turn
decide_in_turn-strict c found p [] h e = absurd (ground arith)
decide_in_turn-strict c found p (r ∷ rs) h e =
    ground
      (arith, h r (Memᴰ.head refl), decide_in_turn-strict c found p rs (λ s m. h s (Memᴰ.tail m)))

compiled-strict :
    (c : Config) (p : Packet)
    → IsValidConfig c
    → c.strictness ≡ strict
    → has_app_mark c p ≡ false
    → All (IsStrictRule c p) (compile_rules c p.family)
      × (any (is_stop p) (compile_rules c p.family) ≡ true)
unfolding compile_rules
compiled-strict c p v h n = ground (arith, selects_all p.mark)

strict_rules :
    (c : Config) (found : ℤ → Bool) (p : Packet) (snapshot : Snapshot)
    → IsValidConfig c
    → c.strictness ≡ strict
    → family_enabled c.families p.family ≡ true
    → has_app_mark c p ≡ false
    → (decide found p (desired_state c snapshot).rules ≡ via c.vpn_table)
      ⊎ (decide found p (desired_state c snapshot).rules ≡ unreachable)
unfolding decide desired_state
strict_rules c found p snapshot v h f n =
    let (a, b) = compiled-strict c p v h n in
    rw (keep_if-rules_for c p.family f) (
      decide_in_turn-strict c found p (sort by_priority (compile_rules c p.family))
        (λ r m. All-mem (IsStrictRule c p) (mem-sort by_priority _ m) a)
        (let (r, m, t) = any_found (is_stop p) (compile_rules c p.family) b in
          any-true (is_stop p) _ (mem-sort_of by_priority _ m) t))

module _ (c : Config) (snapshot : Snapshot) (found : ℤ → Bool) (p : Packet) {d : DesiredState}
    (compiled : compile_desired_state c snapshot ≡ ok d)
    (covered : family_enabled c.families p.family ≡ true) (foreign : has_app_mark c p ≡ false) where
  -- After a successful compilation, with a priority block that does not wrap, of the traffic of a
  -- covered family that lacks the bypass mark, only two kinds reach the main table: with a non-strict policy and a family that the TUN carries,
  -- the marked traffic in exclude mode, and the unmarked traffic in include mode.
  pub main_table_traffic :
      HasExactBlock c
      → decide found p d.rules ≡ via rt_table_main
      → (c.strictness ≡ non_strict)
        × (family_enabled (effective_tunnel_families c) p.family ≡ true)
        × (((c.mode ≡ mode_exclude) × (has_user_mark c p ≡ true))
            ⊎ ((c.mode ≡ mode_include) × (has_user_mark c p ≡ false)))
  unfolding policy
  main_table_traffic exact h = ground (
    arith,
    decide-compile_desired_state c snapshot found p compiled exact covered,
    compiled-IsValidConfig c snapshot compiled,
  )

  -- After a successful compilation, a strict policy makes the traffic of a covered family that lacks
  -- the bypass mark use the VPN table or be unreachable.
  pub strict_traffic :
      c.strictness ≡ strict
      → (decide found p d.rules ≡ via c.vpn_table) ⊎ (decide found p d.rules ≡ unreachable)
  strict_traffic h = rw (compiled_state c snapshot compiled) (
      strict_rules c found p snapshot (compiled-IsValidConfig c snapshot compiled) h covered
        foreign)

  -- After a successful compilation, the rules leave traffic of a covered family that lacks the bypass
  -- mark undecided only when it is unmarked, in the non-strict include mode.
  fall_through :
      HasExactBlock c
      → decide found p d.rules ≡ undecided
      → (c.mode ≡ mode_include) × (c.strictness ≡ non_strict) × (has_user_mark c p ≡ false)
  unfolding policy
  fall_through exact h = ground (
    arith,
    decide-compile_desired_state c snapshot found p compiled exact covered,
    compiled-IsValidConfig c snapshot compiled,
  )
