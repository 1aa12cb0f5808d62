-- ===== src/Base/Sort.antt =====
-- Go's `slices.SortStableFunc` and `slices.SortFunc`, as an insertion sort that keeps the order of
-- items which compare equal.
use Prim.Native.Nat.{Ordering}
use mathlib.Core.Path.{◌≡◌}
use mathlib.Core.List.{List, [], ◌∷◌, Perm, Memᴰ}
use mathlib.Core.List.Perm
use mathlib.Core.Logic.{◌≢◌}
use native.Mathlib.Omega.{arith}

module _ {ℓ} {A : Type ℓ} (cmp : A → A → Ordering) where
  unfoldable pub insert_sorted : A → List A → List A
  insert_sorted x [] = x ∷ []
  insert_sorted x (y ∷ ys) =
      let rest = insert_sorted x ys in elim (cmp x y) [ Ordering.gt ↦ y ∷ rest | _ ↦ x ∷ y ∷ ys ]

  abbrev place : A → A → List A → Ordering → List A
  unfolding insert_sorted
  place x y ys Ordering.gt = y ∷ insert_sorted x ys
  place x y ys _ = x ∷ y ∷ ys

  unfoldable pub sort : List A → List A
  unfolding insert_sorted
  sort [] = []
  sort (x ∷ xs) = insert_sorted x (sort xs)

  abbrev NotAfter : A → A → Type 0
  NotAfter x y = cmp x y ≢ Ordering.gt

  -- Each item does not compare greater than the next one.
  abbrev pub IsSorted : List A → Type 0
  IsSorted [] = Unit
  IsSorted (x ∷ []) = Unit
  IsSorted (x ∷ y ∷ ys) = NotAfter x y × IsSorted (y ∷ ys)

  insert_sorted-perm : (x : A) (ys : List A) → Perm (insert_sorted x ys) (x ∷ ys)
  unfolding insert_sorted
  insert_sorted-perm x [] = Perm.rfl
  insert_sorted-perm x (y ∷ ys) = (elim (cmp x y) as (λ o. Perm (place x y ys o) (x ∷ y ∷ ys)) [
    | Ordering.gt ↦ Perm.trans (Perm.cons y (insert_sorted-perm x ys)) (Perm.swap x y ys)
    | _ ↦ Perm.rfl
  ])

  pub sort-perm : (xs : List A) → Perm (sort xs) xs
  unfolding sort
  sort-perm [] = Perm.rfl
  sort-perm (x ∷ xs) = Perm.trans (insert_sorted-perm x (sort xs)) (Perm.cons x (sort-perm xs))

  mem-insert_sorted : {a : A} (x : A) (ys : List A) → Memᴰ a (insert_sorted x ys) → Memᴰ a (x ∷ ys)
  unfolding insert_sorted
  mem-insert_sorted x [] m = m
  mem-insert_sorted {a} x (y ∷ ys) m = by_order (cmp x y) m (mem-insert_sorted x ys)
    where
      by_order :
          (o : Ordering)
          → Memᴰ a (elim o [ Ordering.gt ↦ y ∷ insert_sorted x ys | _ ↦ x ∷ y ∷ ys ])
          → (Memᴰ a (insert_sorted x ys) → Memᴰ a (x ∷ ys))
          → Memᴰ a (x ∷ y ∷ ys)
      by_order Ordering.gt (Memᴰ.head e) ih = Memᴰ.tail (Memᴰ.head e)
      by_order Ordering.gt (Memᴰ.tail r) ih = elim (ih r) [
        | Memᴰ.head e ↦ Memᴰ.head e
        | Memᴰ.tail l ↦ Memᴰ.tail (Memᴰ.tail l)
      ]
      by_order _ r ih = r

  pub mem-sort : {a : A} (xs : List A) → Memᴰ a (sort xs) → Memᴰ a xs
  unfolding sort
  mem-sort [] m = m
  mem-sort (x ∷ xs) m = elim (mem-insert_sorted x (sort xs) m) [
    | Memᴰ.head e ↦ Memᴰ.head e
    | Memᴰ.tail l ↦ Memᴰ.tail (mem-sort xs l)
  ]

  mem-insert_sorted_of :
      {a : A} (x : A) (ys : List A) → Memᴰ a (x ∷ ys) → Memᴰ a (insert_sorted x ys)
  unfolding insert_sorted
  mem-insert_sorted_of x [] m = m
  mem-insert_sorted_of {a} x (y ∷ ys) m = by_order (cmp x y) m (mem-insert_sorted_of x ys)
    where
      by_order :
          (o : Ordering)
          → Memᴰ a (x ∷ y ∷ ys)
          → (Memᴰ a (x ∷ ys) → Memᴰ a (insert_sorted x ys))
          → Memᴰ a (elim o [ Ordering.gt ↦ y ∷ insert_sorted x ys | _ ↦ x ∷ y ∷ ys ])
      by_order Ordering.gt (Memᴰ.head e) ih = Memᴰ.tail (ih (Memᴰ.head e))
      by_order Ordering.gt (Memᴰ.tail (Memᴰ.head e)) ih = Memᴰ.head e
      by_order Ordering.gt (Memᴰ.tail (Memᴰ.tail l)) ih = Memᴰ.tail (ih (Memᴰ.tail l))
      by_order _ r ih = r

  pub mem-sort_of : {a : A} (xs : List A) → Memᴰ a xs → Memᴰ a (sort xs)
  unfolding sort
  mem-sort_of [] m = m
  mem-sort_of (x ∷ xs) (Memᴰ.head e) = mem-insert_sorted_of x (sort xs) (Memᴰ.head e)
  mem-sort_of (x ∷ xs) (Memᴰ.tail m) =
      mem-insert_sorted_of x (sort xs) (Memᴰ.tail (mem-sort_of xs m))

-- A comparison that puts two items in some order either way sorts.
module _ {ℓ} {A : Type ℓ} (cmp : A → A → Ordering)
    (flip : (x y : A) → cmp x y ≡ Ordering.gt → cmp y x ≢ Ordering.gt) where
  insert_sorted-IsSorted :
      (x : A) (ys : List A) → IsSorted cmp ys → IsSorted cmp (insert_sorted cmp x ys)
  unfolding insert_sorted
  insert_sorted-IsSorted x [] s = tt
  insert_sorted-IsSorted x (y ∷ []) s = ground (arith, flip x y)
  insert_sorted-IsSorted x (y ∷ z ∷ zs) s =
      ground (arith, flip x y, flip x z, insert_sorted-IsSorted x (z ∷ zs))

  pub sort-IsSorted : (xs : List A) → IsSorted cmp (sort cmp xs)
  unfolding sort
  sort-IsSorted [] = tt
  sort-IsSorted (x ∷ xs) = insert_sorted-IsSorted x (sort cmp xs) (sort-IsSorted xs)
