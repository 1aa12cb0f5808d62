-- ===== src/Net/Prefix/Masked.antt =====
-- Masking a prefix again changes nothing, and makes no IPv4 address out of an IPv6 one.
use Prim.Native.Nat.{ℕ, suc, zero, ◌+◌, ◌-◌, ◌*◌, ◌/◌, ◌^◌}
use native.Mathlib.Nat.{
  mul-div_cancel, one-le-pow, pow-suc, mul_assoc, mul_comm, div-div-eq-div-mul,
}
use sysnet_linux.Base.{
  ◌≡◌, refl, sym, ap, subst, ◌∙◌, true, false, ◌==◌, ==_iff, Bool-cases, inl, inr, leb, arith,
}
use sysnet_linux.Net.Addr.{Addr, is4, is4in6, no_zone}
use sysnet_linux.Net.Prefix.{Prefix, masked, mask_addr, is_valid, bits}

cut_again : (k n : ℕ) → n / 2 ^ k * 2 ^ k / 2 ^ k * 2 ^ k ≡ n / 2 ^ k * 2 ^ k
cut_again k n = ap (λ t. t * 2 ^ k) (mul-div_cancel (n / 2 ^ k) (one-le-pow k 2 (omega arith)))

mask_addr_again : (a : Addr) (b : ℕ) → mask_addr (mask_addr a b) b ≡ mask_addr a b
unfolding mask_addr
mask_addr_again Addr.invalid b = refl
mask_addr_again (Addr.v4 n) b = ap Addr.v4 (cut_again (32 - b) n)
mask_addr_again (Addr.v6 n z) b = ap (λ v. Addr.v6 v no_zone) (cut_again (128 - b) n)

pub masked_again : (p : Prefix) → masked (masked p) ≡ masked p
unfolding masked
masked_again p = elim (Bool-cases (is_valid p)) [
  | inr e ↦ rw e refl
  | inl e ↦ rw e (
      rw e (
        ap (λ a. record { addr = a; bits_plus_one = p.bits_plus_one })
          (mask_addr_again p.addr (bits p))))
]

exponent : (a b : ℕ) → a ≡ b → 2 ^ a ≡ 2 ^ b
exponent a b e = ap (λ t. 2 ^ t) e

pow_sum : (a b : ℕ) → 2 ^ (a + b) ≡ 2 ^ a * 2 ^ b
pow_sum zero b = exponent (zero + b) b (omega arith) ∙ omega arith
pow_sum (suc a) b =
    exponent (suc a + b) (suc (a + b)) (omega arith)
    ∙ pow-suc 2 (a + b)
    ∙ ap (λ t. t * 2) (pow_sum a b)
    ∙ mul_assoc (2 ^ a) (2 ^ b) 2
    ∙ ap (λ t. 2 ^ a * t) (mul_comm (2 ^ b) 2)
    ∙ sym (mul_assoc (2 ^ a) 2 (2 ^ b))
    ∙ ap (λ t. t * 2 ^ b) (sym (pow-suc 2 a))

-- The upper part of a number that is cut at or below that part.
cut_below : (a b n : ℕ) → n / 2 ^ a * 2 ^ a / 2 ^ (a + b) ≡ n / 2 ^ (a + b)
cut_below a b n =
    ap (λ t. n / 2 ^ a * 2 ^ a / t) (pow_sum a b)
    ∙ sym (div-div-eq-div-mul (n / 2 ^ a * 2 ^ a) (2 ^ a) (2 ^ b))
    ∙ ap (λ t. t / 2 ^ b) (mul-div_cancel (n / 2 ^ a) (one-le-pow a 2 (omega arith)))
    ∙ div-div-eq-div-mul n (2 ^ a) (2 ^ b)
    ∙ ap (λ t. n / t) (sym (pow_sum a b))

-- Cut above, it is even.
cut_above : (j n : ℕ) → n / 2 ^ (33 + j) * 2 ^ (33 + j) / 2 ^ 32 ≡ n / 2 ^ (33 + j) * 2 ^ j * 2
cut_above j n =
    ap (λ t. t / 2 ^ 32)
      (ap (λ t. n / 2 ^ (33 + j) * t) (pow_sum 33 j ∙ mul_comm (2 ^ 33) (2 ^ j))
        ∙ sym (mul_assoc (n / 2 ^ (33 + j)) (2 ^ j) (2 ^ 33)))
    ∙ omega arith

high_part :
    (k n : ℕ) → (n / 2 ^ k * 2 ^ k / 2 ^ 32 == 0xffff) ≡ true → (n / 2 ^ 32 == 0xffff) ≡ true
high_part k n h = elim (Bool-cases (leb k 32)) [
  | inl e ↦ (==_iff _ _).1 (below k (32 - k) n (ground arith) ((==_iff _ _).0 h))
  | inr e ↦ absurd (above k (k - 33) n (ground arith) ((==_iff _ _).0 h))
]
  where
    below : (k j n : ℕ) → k + j ≡ 32 → n / 2 ^ k * 2 ^ k / 2 ^ 32 ≡ 0xffff → n / 2 ^ 32 ≡ 0xffff
    below k j n e h =
        subst (λ t. n / 2 ^ k * 2 ^ k / 2 ^ t ≡ 0xffff → n / 2 ^ t ≡ 0xffff) e
          (λ q. sym (cut_below k j n) ∙ q) h

    above : (k j n : ℕ) → 33 + j ≡ k → n / 2 ^ k * 2 ^ k / 2 ^ 32 ≡ 0xffff → ⊥
    above k j n e h =
        odd (n / 2 ^ (33 + j) * 2 ^ j)
          (sym (cut_above j n) ∙ subst (λ t. n / 2 ^ t * 2 ^ t / 2 ^ 32 ≡ 0xffff) (sym e) h)
      where
        odd : (t : ℕ) → t * 2 ≡ 0xffff → ⊥
        odd t q = absurd (omega arith)

mask_addr-plain : (a : Addr) (b : ℕ) → is4in6 a ≡ false → is4in6 (mask_addr a b) ≡ false
unfolding is4in6 mask_addr
mask_addr-plain Addr.invalid b h = refl
mask_addr-plain (Addr.v4 n) b h = refl
mask_addr-plain (Addr.v6 n z) b h =
    elim (Bool-cases (n / 2 ^ (128 - b) * 2 ^ (128 - b) / 2 ^ 32 == 0xffff)) [
      | inr e ↦ e
      | inl e ↦ absurd (ground (arith, high_part (128 - b) n e))
    ]

pub masked-plain : (p : Prefix) → is4in6 p.addr ≡ false → is4in6 (masked p).addr ≡ false
unfolding masked is4in6
masked-plain p h = elim (Bool-cases (is_valid p)) [
  | inr e ↦ rw e refl
  | inl e ↦ rw e (mask_addr-plain p.addr (bits p) h)
]

mask_addr-is4 : (a : Addr) (b : ℕ) → is4 (mask_addr a b) ≡ is4 a
unfolding mask_addr
mask_addr-is4 Addr.invalid b = refl
mask_addr-is4 (Addr.v4 n) b = refl
mask_addr-is4 (Addr.v6 n z) b = refl

pub masked-is4 : (p : Prefix) → is_valid p ≡ true → is4 (masked p).addr ≡ is4 p.addr
unfolding masked
masked-is4 p e = rw e (mask_addr-is4 p.addr (bits p))

pub masked-is_valid : (p : Prefix) → is_valid p ≡ true → is_valid (masked p) ≡ true
unfolding masked
masked-is_valid p e = rw (e, e) refl
