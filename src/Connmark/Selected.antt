-- ===== src/Connmark/Selected.antt =====
-- What normalizeMarks accepts and what it makes of it.
use mathlib.Core.List.{Memᴰ}
use sysnet_linux.Base.{
  ℕ, ◌==◌, ◌≡◌, refl, sym, ◌∙◌, ◌≢◌, ◌↔◌, ◌⊎◌, inl, inr, Bool, true, false, List, [], ◌∷◌, ◌++◌, ok,
  any, any-false, All, All-mem, All-of_mem, All-append, Bool-cases, mem-append_cases,
  mem-append_left, mem-append_right, arith, subst, Result-cases, ok-injective,
}
use sysnet_linux.Base.Unseen.{any_found}
use sysnet_linux.Base.Bits.{bit_and_comm}
use sysnet_linux.Connmark.Marks.{
  Mark, mark_eq, marks_overlap, gather, some_overlap, normalize_marks,
}

pub mark_eq_iff : (a b : Mark) → (mark_eq a b ≡ true) ↔ (a ≡ b)
unfolding mark_eq
mark_eq_iff a b = (λ h. ground arith, λ e. ground arith)

-- No two selectors of the list can select the same packet mark.
abbrev pub AreApart : List Mark → Type 0
AreApart [] = Unit
AreApart (a ∷ rest) = All (λ b. marks_overlap a b ≡ false) rest × AreApart rest

abbrev AreDistinct : List Mark → Type 0
AreDistinct [] = Unit
AreDistinct (a ∷ rest) = All (λ b. b ≢ a) rest × AreDistinct rest

abbrev pub HasMask : Mark → Type 0
HasMask m = m.mask ≢ 0

-- The items of a list come from two others.
abbrev pub IsUnion : List Mark → List Mark → List Mark → Type 0
IsUnion out ms r = (m : Mark) → Memᴰ m r ↔ (Memᴰ m out ⊎ Memᴰ m ms)

is_among : (m : Mark) (out : List Mark) → any (λ e. mark_eq e m) out ≡ true → Memᴰ m out
is_among m out h =
    let (e, l, q) = any_found (λ e. mark_eq e m) out h in
    subst (λ x. Memᴰ x out) ((mark_eq_iff e m).0 q) l

IsUnion-skip :
    (out ms r : List Mark) (m : Mark) → Memᴰ m out → IsUnion out ms r → IsUnion out (m ∷ ms) r
IsUnion-skip out ms r m l u x = (
  λ h. elim ((u x).0 h) [ inl o ↦ inl o | inr k ↦ inr (Memᴰ.tail k) ],
  λ h. elim h [
    | inl o ↦ (u x).1 (inl o)
    | inr (Memᴰ.head e) ↦ (u x).1 (inl (subst (λ y. Memᴰ y out) (sym e) l))
    | inr (Memᴰ.tail k) ↦ (u x).1 (inr k)
  ],
)

IsUnion-keep :
    (out ms r : List Mark) (m : Mark) → IsUnion (out ++ m ∷ []) ms r → IsUnion out (m ∷ ms) r
IsUnion-keep out ms r m u x = (
  λ h. elim ((u x).0 h) [
    | inl o ↦ elim (mem-append_cases out o) [
      | inl p ↦ inl p
      | inr (Memᴰ.head e) ↦ inr (Memᴰ.head e)
      | inr (Memᴰ.tail k) ↦ elim k [ ]
    ]
    | inr k ↦ inr (Memᴰ.tail k)
  ],
  λ h. elim h [
    | inl o ↦ (u x).1 (inl (mem-append_left (m ∷ []) o))
    | inr (Memᴰ.head e) ↦ (u x).1 (inl (mem-append_right out (Memᴰ.head e)))
    | inr (Memᴰ.tail k) ↦ (u x).1 (inr k)
  ],
)

distinct_snoc :
    (m : Mark) (out : List Mark)
    → any (λ e. mark_eq e m) out ≡ false
    → AreDistinct out
    → AreDistinct (out ++ m ∷ [])
distinct_snoc m [] h d = (tt, tt)
distinct_snoc m (x ∷ out) h d = (
  All-append (λ b. b ≢ x) out (m ∷ []) d.0 ((λ e. ground (arith, mark_eq_iff x m)), tt),
  distinct_snoc m out (ground arith) d.1,
)

gather_sound :
    (out ms r : List Mark)
    → gather out ms ≡ ok r
    → AreDistinct out
    → IsUnion out ms r × All HasMask ms × AreDistinct r
unfolding gather
gather_sound out [] r h d =
    subst (λ x. IsUnion out [] x × All HasMask [] × AreDistinct x) (ok-injective h)
      ((λ x. (inl, λ k. elim k [ inl o ↦ o | inr n ↦ elim n [ ] ])), tt, d)
gather_sound out (m ∷ ms) r h d = elim (Bool-cases (m.mask == 0)) [
  | inl z ↦ absurd (ground arith)
  | inr z ↦ elim (Bool-cases (any (λ e. mark_eq e m) out)) [
    | inl a ↦
        let (u, k, q) = gather_sound out ms r (rw (z, a, gather) at h) d in
        (IsUnion-skip out ms r m (is_among m out a) u, (ground arith, k), q)
    | inr a ↦
        let (u, k, q) =
          gather_sound (out ++ m ∷ []) ms r (rw (z, a, gather) at h) (distinct_snoc m out a d) in
        (IsUnion-keep out ms r m u, (ground arith, k), q)
  ]
]

gather_complete : (out ms : List Mark) → All HasMask ms → (r : List Mark) × (gather out ms ≡ ok r)
unfolding gather
gather_complete out [] h = (out, refl)
gather_complete out (m ∷ ms) h = elim (Bool-cases (any (λ e. mark_eq e m) out)) [
  | inl a ↦ let (r, e) = gather_complete out ms h.1 in (r, ground arith)
  | inr a ↦ let (r, e) = gather_complete (out ++ m ∷ []) ms h.1 in (r, ground arith)
]

some_overlap-apart : (r : List Mark) → some_overlap r ≡ false → AreApart r
unfolding some_overlap
some_overlap-apart [] h = tt
some_overlap-apart (a ∷ rest) h = (
  All-of_mem (λ b. marks_overlap a b ≡ false) rest
      (λ b m. any-false (marks_overlap a) rest (ground arith) m),
  some_overlap-apart rest (ground arith),
)

-- Two selectors that overlap are the same one.
abbrev pub OverlapOnlySelf : List Mark → Type 0
OverlapOnlySelf ms = (a b : Mark) → Memᴰ a ms → Memᴰ b ms → marks_overlap a b ≡ true → b ≡ a

apart-some_overlap : (r : List Mark) → AreDistinct r → OverlapOnlySelf r → some_overlap r ≡ false
unfolding some_overlap
apart-some_overlap [] d o = refl
apart-some_overlap (a ∷ rest) d o = elim (Bool-cases (any (marks_overlap a) rest)) [
  | inl h ↦
      let (b, m, e) = any_found (marks_overlap a) rest h in
      absurd (All-mem (λ x. x ≢ a) m d.0 (o a b (Memᴰ.head refl) (Memᴰ.tail m) e))
  | inr h ↦ rw h (apart-some_overlap rest d.1 (λ x y p q. o x y (Memᴰ.tail p) (Memᴰ.tail q)))
]

marks_overlap_comm : (a b : Mark) → marks_overlap a b ≡ marks_overlap b a
unfolding marks_overlap
marks_overlap_comm a b = rw (bit_and_comm a.mask b.mask) (==_comm _ _)
  where
    ==_comm : (x y : ℕ) → (x == y) ≡ (y == x)
    ==_comm x y = ground arith

conflict : {b : Bool} → b ≡ false → b ≡ true → ⊥
conflict f g = ground arith

apart_pair :
    (r : List Mark) (a b : Mark)
    → AreApart r
    → Memᴰ a r
    → Memᴰ b r
    → marks_overlap a b ≡ true
    → b ≡ a
apart_pair [] a b p m n h = elim m [ ]
apart_pair (x ∷ r) a b p (Memᴰ.head e) (Memᴰ.head f) h = f ∙ sym e
apart_pair (x ∷ r) a b p (Memᴰ.head e) (Memᴰ.tail n) h =
    absurd (conflict (All-mem (λ y. marks_overlap x y ≡ false) n p.0) (rw e at h))
apart_pair (x ∷ r) a b p (Memᴰ.tail m) (Memᴰ.head f) h =
    absurd (
      conflict (All-mem (λ y. marks_overlap x y ≡ false) m p.0)
        (marks_overlap_comm x a ∙ rw f at h))
apart_pair (x ∷ r) a b p (Memᴰ.tail m) (Memᴰ.tail n) h = apart_pair r a b p.1 m n h

-- What a successful normalization leaves.
pub normalized-AreApart :
    (ms out : List Mark)
    → normalize_marks ms ≡ ok out
    → IsUnion [] ms out × All HasMask ms × AreApart out
unfolding normalize_marks
normalized-AreApart ms out h = elim (Result-cases (gather [] ms)) [
  | inr (e, g) ↦ absurd (ground arith)
  | inl (r, g) ↦ elim (Bool-cases (some_overlap r)) [
    | inl o ↦ absurd (ground arith)
    | inr o ↦
        let same = ok-injective (rw (g, o, normalize_marks) at h) in
        let (u, k, d) = gather_sound [] ms r g tt in
        subst (λ x. IsUnion [] ms x × All HasMask ms × AreApart x) same
          (u, k, some_overlap-apart r o)
  ]
]

-- normalizeMarks accepts exactly the lists in which every mask is non-zero and two selectors that
-- overlap are the same one.
pub normalize_marks_iff :
    (ms : List Mark)
    → ((out : List Mark) × (normalize_marks ms ≡ ok out)) ↔ (All HasMask ms × OverlapOnlySelf ms)
unfolding normalize_marks
normalize_marks_iff ms = (
  λ (out, h).
      let (u, k, p) = normalized-AreApart ms out h in
      (k, λ a b m n o. apart_pair out a b p ((u a).1 (inr m)) ((u b).1 (inr n)) o),
  λ (k, o).
      let (r, g) = gather_complete [] ms k in
      let (u, _, d) = gather_sound [] ms r g tt in
      (r, rw (g, normalize_marks) (rw (apart-some_overlap r d (inherited r u o)) refl)),
)
  where
    inherited : (r : List Mark) → IsUnion [] ms r → OverlapOnlySelf ms → OverlapOnlySelf r
    inherited r u o a b m n h = o a b (among r u a m) (among r u b n) h
      where
        among : (r : List Mark) → IsUnion [] ms r → (x : Mark) → Memᴰ x r → Memᴰ x ms
        among r u x l = elim ((u x).0 l) [ inl e ↦ elim e [ ] | inr k ↦ k ]
