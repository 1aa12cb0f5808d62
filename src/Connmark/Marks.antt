-- ===== src/Connmark/Marks.antt =====
-- connmark/connmark.go: mark selectors, and normalizeMarks.
use sysnet_linux.Base.{
  ℕ, ◌==◌, Bool, false, ◌&&◌, ◌||◌, List, [], ◌∷◌, ◌++◌, Result, ok, err, any, if◌then◌else◌,
  bit_and,
}

pub record Mark : Type 0 where
  pub value : ℕ
  pub mask : ℕ

pub data MarkError : Type 0 where
  mask_must_be_non_zero selectors_overlap : MarkError

-- Go's `==` on marks.
unfoldable pub mark_eq : Mark → Mark → Bool
mark_eq a b = a.value == b.value && a.mask == b.mask

unfoldable pub marks_overlap : Mark → Mark → Bool
marks_overlap a b =
    let common = bit_and a.mask b.mask in bit_and a.value common == bit_and b.value common

-- The first loop of normalizeMarks; `out` is what it has gathered.
unfoldable pub gather : List Mark → List Mark → Result MarkError (List Mark)
unfolding mark_eq
gather out [] = ok out
gather out (m ∷ ms) =
    let skipped = gather out ms in
    let kept = gather (out ++ m ∷ []) ms in
    if m.mask == 0
    then err mask_must_be_non_zero
    else (if any (λ existing. mark_eq existing m) out then skipped else kept)

-- The second loop.
unfoldable pub some_overlap : List Mark → Bool
unfolding marks_overlap
some_overlap [] = false
some_overlap (a ∷ rest) = any (marks_overlap a) rest || some_overlap rest

abbrev checked : Result MarkError (List Mark) → Result MarkError (List Mark)
unfolding some_overlap
checked (err e) = err e
checked (ok out) = if some_overlap out then err selectors_overlap else ok out

unfoldable pub normalize_marks : List Mark → Result MarkError (List Mark)
unfolding gather checked
normalize_marks ms = checked (gather [] ms)
