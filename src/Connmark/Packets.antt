-- ===== src/Connmark/Packets.antt =====
-- What the rules of connmark/connmark.go do to a packet: an interpreter of the expressions, on one
-- register file, the packet's mark and the mark of its connection.
use mathlib.Core.List.{Memᴰ}
use Prim.Native.Nat.{bit_xor, bit_xor-bitwise, digits, differ, zero, suc, ◌/◌, ◌%◌}
use sysnet_linux.Base.{
  ℕ, ◌≤◌, ◌==◌, ==_iff, ◌≡◌, refl, ap, ◌∙◌, Bool, true, false, List, [], ◌∷◌, All, All-mem,
  Bool-cases, if◌then◌else◌, bit_and, arith, inl, inr, map,
}
use sysnet_linux.Base.Bits.{bit_and_comm, bit_and_under}
use sysnet_linux.Connmark.Marks.{Mark, marks_overlap}
use sysnet_linux.Connmark.Conn.{
  Expr, Key, meta_mark, ct_mark, match_mark_exprs, set_ct_mark_exprs, set_meta_mark_exprs,
  save_mark_exprs, restore_mark_exprs,
}
use sysnet_linux.Connmark.Selected.{AreApart}

pub record Packet : Type 0 where
  pub mark : ℕ
  pub connection : ℕ

abbrev get : Key → Packet → ℕ
get meta_mark p = p.mark
get ct_mark p = p.connection

abbrev put : Key → ℕ → Packet → Packet
put meta_mark v p = record p { mark = v }
put ct_mark v p = record p { connection = v }

abbrev set_register : ℕ → ℕ → (ℕ → ℕ) → ℕ → ℕ
set_register r v regs q = if q == r then v else regs q

-- One rule: it ends at a comparison that fails.
unfoldable pub run_rule : List Expr → (ℕ → ℕ) → Packet → Packet
run_rule [] regs p = p
run_rule (Expr.load k r ∷ es) regs p = run_rule es (set_register r (get k p) regs) p
run_rule (Expr.store k r ∷ es) regs p = run_rule es regs (put k (regs r) p)
run_rule (Expr.bitwise src dst mask xor ∷ es) regs p =
    run_rule es (set_register dst (bit_xor (bit_and (regs src) mask) xor) regs) p
run_rule (Expr.cmp_eq r v ∷ es) regs p =
    let rest = run_rule es regs p in if regs r == v then rest else p
run_rule (Expr.immediate r v ∷ es) regs p = run_rule es (set_register r v regs) p

-- A chain: its rules one after the other, each from cleared registers.
unfoldable pub run_chain : List (List Expr) → Packet → Packet
unfolding run_rule
run_chain [] p = p
run_chain (r ∷ rs) p = run_chain rs (run_rule r (λ q. 0) p)

-- Exclusive or with 0.
differ-zero : (a : ℕ) → differ a 0 ≡ a
differ-zero zero = refl
differ-zero (suc a) = refl

xor_to-zero : (n a : ℕ) → a ≤ n → digits (λ b. b) differ n a 0 ≡ a
xor_to-zero zero a h = omega arith
xor_to-zero (suc n) zero h = refl
xor_to-zero (suc n) (suc a) h =
    omega (arith, xor_to-zero n (suc a / 2) (omega arith), differ-zero (suc a % 2))

bit_xor-zero : (a : ℕ) → bit_xor a 0 ≡ a
bit_xor-zero a = (λ i. bit_xor-bitwise a 0 i) ∙ xor_to-zero a a (omega arith)

-- Whether a selector takes a mark.
unfoldable pub selects : Mark → ℕ → Bool
selects m mark = bit_and mark m.mask == bit_and m.value m.mask

run_rule-save :
    (m : Mark) (p : Packet)
    → run_rule (save_mark_exprs m) (λ q. 0) p
      ≡ (if selects m p.mark then record p { connection = m.value } else p)
unfolding run_rule save_mark_exprs match_mark_exprs set_ct_mark_exprs selects
run_rule-save m p = rw (bit_xor-zero (bit_and p.mark m.mask)) refl

run_rule-restore :
    (m : Mark) (p : Packet)
    → run_rule (restore_mark_exprs m) (λ q. 0) p
      ≡ (if selects m p.connection then record p { mark = m.value } else p)
unfolding run_rule restore_mark_exprs match_mark_exprs set_meta_mark_exprs selects
run_rule-restore m p = rw (bit_xor-zero (bit_and p.connection m.mask)) refl

-- Selectors that do not overlap select no mark both.
selects_one :
    (a b : Mark) (x : ℕ) → marks_overlap a b ≡ false → selects a x ≡ true → selects b x ≡ false
unfolding marks_overlap selects
selects_one a b x o h = elim (Bool-cases (selects b x)) [
  | inr n ↦ n
  | inl k ↦
      let f = bit_and_under x a.value a.mask b.mask ((==_iff _ _).0 h) in
      let g = bit_and_under x b.value b.mask a.mask ((==_iff _ _).0 k) in
      let g' = rw (bit_and_comm b.mask a.mask) at g in absurd (ground (arith, f, g'))
]

module _ (x : ℕ) where
  -- No selector of the list takes the mark.
  abbrev NoneSelects : List Mark → Type 0
  NoneSelects = All (λ b. selects b x ≡ false)

  none_after : (m : Mark) (ms : List Mark) → AreApart (m ∷ ms) → selects m x ≡ true → NoneSelects ms
  none_after m [] h s = tt
  none_after m (b ∷ ms) h s = (selects_one m b x h.0.0 s, none_after m ms (h.0.1, h.1.1) s)

  not_before :
      (m b : Mark) (ms : List Mark)
      → AreApart (b ∷ ms)
      → Memᴰ m ms
      → selects m x ≡ true
      → selects b x ≡ false
  not_before m b ms h l s = elim (Bool-cases (selects b x)) [
    | inr n ↦ n
    | inl t ↦ absurd (clash (All-mem (λ y. selects y x ≡ false) l (none_after b ms h t)) s)
  ]
    where
      clash : {t : Bool} → t ≡ false → t ≡ true → ⊥
      clash f g = ground arith

abbrev pub save_rules : List Mark → List (List Expr)
save_rules = map save_mark_exprs

abbrev pub restore_rules : List Mark → List (List Expr)
restore_rules = map restore_mark_exprs

save_none : (ms : List Mark) (p : Packet) → NoneSelects p.mark ms → run_chain (save_rules ms) p ≡ p
unfolding run_chain
save_none [] p h = refl
save_none (m ∷ ms) p h =
    ap (run_chain (save_rules ms)) (run_rule-save m p ∙ rw h.0 refl) ∙ save_none ms p h.1

save_selected :
    (ms : List Mark) (m : Mark) (p : Packet)
    → AreApart ms
    → Memᴰ m ms
    → selects m p.mark ≡ true
    → run_chain (save_rules ms) p ≡ record p { connection = m.value }
unfolding run_chain
save_selected [] m p h l s = elim l [ ]
save_selected (b ∷ ms) m p h (Memᴰ.head e) s =
    ap (run_chain (save_rules ms)) (run_rule-save b p ∙ rw (← e, s) refl)
    ∙ save_none ms (record p { connection = m.value }) (none_after p.mark m ms (rw e h) s)
save_selected (b ∷ ms) m p h (Memᴰ.tail l) s =
    ap (run_chain (save_rules ms)) (run_rule-save b p ∙ rw (not_before p.mark m b ms h l s) refl)
    ∙ save_selected ms m p h.1 l s

restore_none :
    (ms : List Mark) (p : Packet) → NoneSelects p.connection ms → run_chain (restore_rules ms) p ≡ p
unfolding run_chain
restore_none [] p h = refl
restore_none (m ∷ ms) p h =
    ap (run_chain (restore_rules ms)) (run_rule-restore m p ∙ rw h.0 refl) ∙ restore_none ms p h.1

restore_selected :
    (ms : List Mark) (m : Mark) (p : Packet)
    → AreApart ms
    → Memᴰ m ms
    → selects m p.connection ≡ true
    → run_chain (restore_rules ms) p ≡ record p { mark = m.value }
unfolding run_chain
restore_selected [] m p h l s = elim l [ ]
restore_selected (b ∷ ms) m p h (Memᴰ.head e) s =
    ap (run_chain (restore_rules ms)) (run_rule-restore b p ∙ rw (← e, s) refl)
    ∙ restore_none ms (record p { mark = m.value }) (none_after p.connection m ms (rw e h) s)
restore_selected (b ∷ ms) m p h (Memᴰ.tail l) s =
    ap (run_chain (restore_rules ms))
      (run_rule-restore b p ∙ rw (not_before p.connection m b ms h l s) refl)
    ∙ restore_selected ms m p h.1 l s

own_value : (m : Mark) → selects m m.value ≡ true
unfolding selects
own_value m = (==_iff (bit_and m.value m.mask) _).1 refl

-- When the selectors do not overlap and one of them takes the mark of a packet that leaves, a
-- packet of the same connection that comes in gets that selector's value.
pub mirrored :
    (ms : List Mark) (m : Mark) (p reply : Packet)
    → AreApart ms
    → Memᴰ m ms
    → selects m p.mark ≡ true
    → reply.connection ≡ (run_chain (save_rules ms) p).connection
    → (run_chain (restore_rules ms) reply).mark ≡ m.value
mirrored ms m p reply h l s e = ap (λ q. q.mark) (restore_selected ms m reply h l taken)
  where
    saved : reply.connection ≡ m.value
    saved = e ∙ ap (λ q. q.connection) (save_selected ms m p h l s)

    taken : selects m reply.connection ≡ true
    taken = rw saved (own_value m)
