-- ===== src/Base/Unseen.antt =====
-- The loops that skip what they have seen, over a map used as a set.
use mathlib.Core.List.{List, [], ◌∷◌, Memᴰ}
use mathlib.Core.Path.{◌≡◌, refl, sym, subst, ◌∙◌}
use mathlib.Core.Bool.{Bool, true}
use mathlib.Core.Logic.{◌⊎◌, inl, inr}
use native.Mathlib.Omega.{arith}
use sysnet_linux.Base.Lists.{any}
use sysnet_linux.Base.Tests.{if◌then◌else◌, Bool-cases}

-- `seen` is what they have put out, newest first.
unfoldable pub unseen {ℓ} : {A : Type ℓ} → (A → A → Bool) → List A → List A → List A
unseen same seen [] = []
unseen same seen (x ∷ xs) =
    let later = unseen same (x ∷ seen) xs in
    let skipped = unseen same seen xs in if any (same x) seen then skipped else x ∷ later

pub any_found {ℓ} :
    {A : Type ℓ} (p : A → Bool) (xs : List A) → any p xs ≡ true → (a : A) × Memᴰ a xs × (p a ≡ true)
any_found p [] h = absurd (ground arith)
any_found p (x ∷ xs) h = elim (Bool-cases (p x)) [
  | inl e ↦ (x, Memᴰ.head refl, e)
  | inr e ↦ let (a, m, t) = any_found p xs (rw e at h) in (a, Memᴰ.tail m, t)
]

module _ {ℓ} {A : Type ℓ} (same : A → A → Bool) where
  pub mem-unseen : (a : A) (seen xs : List A) → Memᴰ a (unseen same seen xs) → Memᴰ a xs
  unfolding unseen
  mem-unseen a seen [] m = m
  mem-unseen a seen (x ∷ xs) m = elim (Bool-cases (any (same x) seen)) [
    | inl e ↦ Memᴰ.tail (mem-unseen a seen xs (rw e at m))
    | inr e ↦ elim (rw e at m) [
      | Memᴰ.head p ↦ Memᴰ.head p
      | Memᴰ.tail k ↦ Memᴰ.tail (mem-unseen a (x ∷ seen) xs k)
    ]
  ]

  pub mem-unseen_of :
      ((x y : A) → same x y ≡ true → x ≡ y)
      → (a : A) (seen xs : List A) → Memᴰ a xs
      → Memᴰ a seen ⊎ Memᴰ a (unseen same seen xs)
  unfolding unseen
  mem-unseen_of sound a seen [] m = elim m [ ]
  mem-unseen_of sound a seen (x ∷ xs) (Memᴰ.head p) = elim (Bool-cases (any (same x) seen)) [
    | inl e ↦
        let (y, m, t) = any_found (same x) seen e in
        inl (subst (λ z. Memᴰ z seen) (sym (sound x y t) ∙ sym p) m)
    | inr e ↦ rw e (inr (Memᴰ.head p))
  ]
  mem-unseen_of sound a seen (x ∷ xs) (Memᴰ.tail k) = elim (Bool-cases (any (same x) seen)) [
    | inl e ↦ rw e (mem-unseen_of sound a seen xs k)
    | inr e ↦ rw e (elim (mem-unseen_of sound a (x ∷ seen) xs k) [
      | inl (Memᴰ.head p) ↦ inr (Memᴰ.head p)
      | inl (Memᴰ.tail q) ↦ inl q
      | inr q ↦ inr (Memᴰ.tail q)
    ])
  ]
