-- ===== src/Base/Order.antt =====
-- Comparisons and their reversal: numbers and texts compare the other way round when swapped.
use Prim.Native.Nat.{ℕ, Ordering, compare}
use Prim.Native.Char.{code}
use Prim.Native.String.compare as text_law
use Prim.Native.String.{String, compare as text_compare, then}
use mathlib.Core.Path.{◌≡◌, refl, sym, ap, ◌∙◌}
use mathlib.Core.Logic.{◌≢◌}
use native.Mathlib.Omega.{arith}

abbrev pub reverse_order : Ordering → Ordering
reverse_order Ordering.lt = Ordering.gt
reverse_order Ordering.eq = Ordering.eq
reverse_order Ordering.gt = Ordering.lt

pub compare-swap : (a b : ℕ) → compare b a ≡ reverse_order (compare a b)
compare-swap a b = ground arith

then-swap :
    (o p q r : Ordering)
    → p ≡ reverse_order o
    → r ≡ reverse_order q
    → then p r ≡ reverse_order (then o q)
then-swap o p q r h k = ground arith

pub text_compare-swap : (s t : String) → text_compare t s ≡ reverse_order (text_compare s t)
text_compare-swap String.[] String.[] = refl
text_compare-swap String.[] (String.◌∷◌ d t) = cc (text_law.nil-cons d t, text_law.cons-nil d t)
text_compare-swap (String.◌∷◌ c s) String.[] = cc (text_law.nil-cons c s, text_law.cons-nil c s)
text_compare-swap (String.◌∷◌ c s) (String.◌∷◌ d t) =
    text_law.cons-cons d c t s
    ∙ then-swap (compare (code c) (code d)) _ (text_compare s t) _ (compare-swap (code c) (code d))
        (text_compare-swap s t)
    ∙ sym (ap reverse_order (text_law.cons-cons c d s t))

-- A comparison that is reversed by a swap never says "greater" both ways.
pub not-gt_swap : (o p : Ordering) → p ≡ reverse_order o → o ≡ Ordering.gt → p ≢ Ordering.gt
not-gt_swap o p h e k = ground arith
