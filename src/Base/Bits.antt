-- ===== src/Base/Bits.antt =====
-- `&` on numbers is associative and commutative at every width. Packet marks are compared under
-- masks, so two selectors are compared by these laws.
use Prim.Native.Nat.{ℕ, zero, suc, ◌+◌, ◌*◌, ◌/◌, ◌%◌, ◌≤◌, min, bit_and, digits, bit_and-bitwise}
use mathlib.Core.Path.{◌≡◌, refl, sym, ap, ◌∙◌}
use native.Mathlib.Omega.{arith}

-- The native operation, for a number of digits that is given apart.
abbrev and_to : ℕ → ℕ → ℕ → ℕ
and_to n a b = digits (λ b. zero) min n a b

and_to-zero : (n b : ℕ) → and_to n zero b ≡ 0
and_to-zero zero b = refl
and_to-zero (suc n) b = refl

and_to_lowest :
    (n a b : ℕ) → and_to (suc n) a b ≡ and_to n (a / 2) (b / 2) * 2 + min (a % 2) (b % 2)
and_to_lowest n zero b = omega (arith, and_to-zero n (b / 2))
and_to_lowest n (suc a) b = refl

and_to-le : (n a b : ℕ) → and_to n a b ≤ a
and_to-le zero a b = omega arith
and_to-le (suc n) a b = omega (arith, and_to_lowest n a b, and_to-le n (a / 2) (b / 2))

and_to_comm : (n a b : ℕ) → a ≤ n → b ≤ n → and_to n a b ≡ and_to n b a
and_to_comm zero a b p q = refl
and_to_comm (suc n) a b p q = omega (
  arith,
  and_to_lowest n a b,
  and_to_lowest n b a,
  and_to_comm n (a / 2) (b / 2) (omega arith) (omega arith),
)

and_to-half : (n a b : ℕ) → and_to (suc n) a b / 2 ≡ and_to n (a / 2) (b / 2)
and_to-half n a b = omega (arith, and_to_lowest n a b)

and_to-low : (n a b : ℕ) → and_to (suc n) a b % 2 ≡ min (a % 2) (b % 2)
and_to-low n a b = omega (arith, and_to_lowest n a b)

and_to_assoc : (n a b c : ℕ) → and_to n (and_to n a b) c ≡ and_to n a (and_to n b c)
and_to_assoc zero a b c = refl
and_to_assoc (suc n) a b c =
    rw (and_to_lowest n (and_to (suc n) a b) c, and_to_lowest n a (and_to (suc n) b c))
      (rw (and_to-half n a b, and_to-low n a b, and_to-half n b c, and_to-low n b c)
        (omega (arith, and_to_assoc n (a / 2) (b / 2) (c / 2))))

and_to_fuel : (n m a b : ℕ) → a ≤ n → a ≤ m → and_to n a b ≡ and_to m a b
and_to_fuel zero m a b p q = omega (arith, and_to-le m a b)
and_to_fuel (suc n) zero a b p q = omega (arith, and_to-le (suc n) a b)
and_to_fuel (suc n) (suc m) a b p q = omega (
  arith,
  and_to_lowest n a b,
  and_to_lowest m a b,
  and_to_fuel n m (a / 2) (b / 2) (omega arith) (omega arith),
)

bit_and_to : (n a b : ℕ) → a ≤ n → bit_and a b ≡ and_to n a b
bit_and_to n a b h = (λ i. bit_and-bitwise a b i) ∙ and_to_fuel a n a b (omega arith) h

pub bit_and_comm : (a b : ℕ) → bit_and a b ≡ bit_and b a
bit_and_comm a b =
    bit_and_to (a + b) a b (omega arith)
    ∙ and_to_comm (a + b) a b (omega arith) (omega arith)
    ∙ sym (bit_and_to (a + b) b a (omega arith))

pub bit_and-le : (a b : ℕ) → bit_and a b ≤ a
bit_and-le a b = omega (arith, bit_and_to a a b, and_to-le a a b)

pub bit_and_assoc : (a b c : ℕ) → bit_and (bit_and a b) c ≡ bit_and a (bit_and b c)
bit_and_assoc a b c = rw (bit_and_to (a + b) (bit_and a b) c (omega (arith, bit_and-le a b))) (
    rw (bit_and_to (a + b) a (bit_and b c) (omega arith)) (
      rw (bit_and_to (a + b) a b (omega arith), bit_and_to (a + b) b c (omega arith))
        (and_to_assoc (a + b) a b c)))

-- Two equal masked values stay equal under a further mask.
pub bit_and_under :
    (m a p q : ℕ) → bit_and m p ≡ bit_and a p → bit_and m (bit_and p q) ≡ bit_and a (bit_and p q)
bit_and_under m a p q h = sym (bit_and_assoc m p q) ∙ ap (λ t. bit_and t q) h ∙ bit_and_assoc a p q
