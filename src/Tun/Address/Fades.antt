-- ===== src/Tun/Address/Fades.antt =====
-- The loops of planTunAddrReconciliation, as a prefix sees them that is not desired: once it is gone
-- it stays gone, and what is deleted under it makes it gone.
use mathlib.Core.List.{Memᴰ}
use sysnet_linux.Base.{
  ℕ, suc, ◌≤◌, ◌==◌, ==_iff, ◌≡◌, refl, sym, ap, ◌∙◌, inl, inr, Bool, true, false, not, ◌||◌, List,
  [], ◌∷◌, Option, none, some, ok, and_then-ok, Bool-cases, arith, any, mem-keep_if, subst,
  ok-injective, if◌then◌else◌,
}
use sysnet_linux.Net.Addr.{is6}
use sysnet_linux.Net.Prefix.{Prefix, prefix_eq, is_valid}
use sysnet_linux.Tun.Prefixes.{NetlinkAddr}
use sysnet_linux.Tun.Address.{
  Listed, Plan, PlanResult, is_unusable, has_nodad, has_prefix, has_address, is_deleted,
  delete_listed, by_prefix, by_address, set_nodad, set_nodad_of, add_new, add_new_of,
  renew_unusable, renew_unusable_of, replace_conflicts, replace_conflicts_of, delete_all,
  delete_unless_deleted, append_replace, each_in_plan, listed_from,
}
use sysnet_linux.Tun.Address.Status.{
  Status, status_of, Grows-after, append_replace-Grows, append_replace-changes, delete_listed-Grows,
  delete_listed-after, by_prefix-found,
}
use sysnet_linux.Tun.Address.Loops.{AreRead}
use sysnet_linux.Tun.Address.Reached.{true≢false, status}

-- Each listed address has its own index.
abbrev pub HaveIndices : List Listed → Type 0
HaveIndices current =
    (e f : Listed) → Memᴰ e current → Memᴰ f current → e.index ≡ f.index → e.prefix ≡ f.prefix

index-le : (i : ℕ) (as_ : List NetlinkAddr) (e : Listed) → Memᴰ e (listed_from i as_) → i ≤ e.index
unfolding listed_from
index-le i [] e m = elim m [ ]
index-le i (a ∷ as_) e (Memᴰ.head q) = omega (arith, ap (λ t. t.index) q)
index-le i (a ∷ as_) e (Memᴰ.tail m) = omega (arith, index-le (suc i) as_ e m)

pub listed_from-HaveIndices : (i : ℕ) (as_ : List NetlinkAddr) → HaveIndices (listed_from i as_)
unfolding listed_from
listed_from-HaveIndices i [] e f m k h = elim m [ ]
listed_from-HaveIndices i (a ∷ as_) e f (Memᴰ.head q) (Memᴰ.head r) h =
    ap (λ t. t.prefix) (q ∙ sym r)
listed_from-HaveIndices i (a ∷ as_) e f (Memᴰ.head q) (Memᴰ.tail k) h =
    absurd (omega (arith, ap (λ t. t.index) q, index-le (suc i) as_ f k))
listed_from-HaveIndices i (a ∷ as_) e f (Memᴰ.tail m) (Memᴰ.head r) h =
    absurd (omega (arith, ap (λ t. t.index) r, index-le (suc i) as_ e m))
listed_from-HaveIndices i (a ∷ as_) e f (Memᴰ.tail m) (Memᴰ.tail k) h =
    listed_from-HaveIndices (suc i) as_ e f m k h

module _ (current : List Listed) (read : AreRead current) (indices : HaveIndices current)
    (p : Prefix) (valid : is_valid p ≡ true) where
  abbrev pub first : Status
  first = status_of p (by_prefix p current)

  abbrev pub IsGone : Plan → Type 0
  IsGone plan = status p first plan ≡ Status.absent

  -- What was deleted under `p` is gone.
  abbrev pub Deletes : Plan → Type 0
  Deletes plan =
      (e : Listed)
      → Memᴰ e current
      → has_prefix p e.prefix ≡ true
      → is_deleted e plan ≡ true
      → IsGone plan

  abbrev pub Fades : Plan → Plan → Type 0
  Fades a b = (IsGone a → IsGone b) × (Deletes a → Deletes b)

  Fades-trans : (a b c : Plan) → Fades a b → Fades b c → Fades a c
  Fades-trans a b c f g = (λ h. g.0 (f.0 h), λ h. g.1 (f.1 h))

  pub noop-Fades : (a b : Plan) → Path PlanResult (ok a) (ok b) → Fades a b
  noop-Fades a b h = subst (Fades a) (ok-injective h) (λ x. x, λ x. x)

  append_replace-Fades :
      (q : Prefix) (a b : Plan) → prefix_eq p q ≡ false → append_replace q a ≡ ok b → Fades a b
  append_replace-Fades q a b n h =
      let g = Grows-after p first a b (append_replace-Grows p q a b n h) in
      let (c, x, y, z, d) = append_replace-changes p q a b h in
      (λ s. g ∙ s, λ k e m y t. g ∙ k e m y (subst (λ ds. any (λ i. i == e.index) ds ≡ true) d t))

  pub delete_listed-Gone :
      (e : Listed) (a : Plan)
      → Memᴰ e current
      → has_prefix p e.prefix ≡ true
      → IsGone (delete_listed e a)
  delete_listed-Gone e a m y = delete_listed-after p e first a (read e m) valid y

  pub delete_listed-Fades : (e : Listed) (a : Plan) → Memᴰ e current → Fades a (delete_listed e a)
  unfolding delete_listed
  delete_listed-Fades e a m = elim (Bool-cases (has_prefix p e.prefix)) [
    | inl y ↦ (λ s. delete_listed-Gone e a m y, λ k f l z t. delete_listed-Gone e a m y)
    | inr n ↦
        let g =
          Grows-after p first a (delete_listed e a)
            (delete_listed-Grows p e a (read e m) valid n) in
        (λ s. g ∙ s, λ k f l z t. g ∙ k f l z (earlier f l z n t))
  ]
    where
      earlier :
          (f : Listed)
          → Memᴰ f current
          → has_prefix p f.prefix ≡ true
          → has_prefix p e.prefix ≡ false
          → is_deleted f (delete_listed e a) ≡ true
          → is_deleted f a ≡ true
      earlier f l z n t = elim (Bool-cases (e.index == f.index)) [
        | inr x ↦ rw x at t
        | inl x ↦ absurd (
            true≢false (
              sym (
                subst (λ o. has_prefix p o ≡ true)
                  (sym (indices e f m l ((==_iff e.index f.index).0 x))) z)
              ∙ n))
      ]

  pub each-Fades :
      {A : Type 0} (f : A → Plan → PlanResult) (xs : List A)
      → ((x : A) (a b : Plan) → Memᴰ x xs → f x a ≡ ok b → Fades a b)
      → (a b : Plan) → each_in_plan f xs a ≡ ok b
      → Fades a b
  each-Fades f [] h a b e = noop-Fades a b e
  each-Fades f (x ∷ xs) h a b e =
      let (m, u, v) = and_then-ok (f x a) (each_in_plan f xs) b e in
      Fades-trans a m b (h x a m (Memᴰ.head refl) u)
        (each-Fades f xs (λ y c d k. h y c d (Memᴰ.tail k)) m b v)

  delete_all-Fades :
      (es : List Listed) (a : Plan)
      → ((e : Listed) → Memᴰ e es → Memᴰ e current)
      → Fades a (delete_all es a)
  delete_all-Fades [] a h = (λ x. x, λ x. x)
  delete_all-Fades (e ∷ es) a h =
      Fades-trans a (delete_unless_deleted e a) (delete_all es (delete_unless_deleted e a))
        (one (is_deleted e a))
        (delete_all-Fades es (delete_unless_deleted e a) (λ x m. h x (Memᴰ.tail m)))
    where
      one : (d : Bool) → Fades a (if◌then◌else◌ d a (delete_listed e a))
      one true = (λ x. x, λ x. x)
      one false = delete_listed-Fades e a (h e (Memᴰ.head refl))

  module _ (q : Prefix) (n : prefix_eq p q ≡ false) (a b : Plan) where
    pub set_nodad-Fades : set_nodad current q a ≡ ok b → Fades a b
    unfolding set_nodad
    set_nodad-Fades = of (by_prefix q current)
      where
        of : (o : Option Listed) → set_nodad_of q o a ≡ ok b → Fades a b
        of none h = noop-Fades a b h
        of (some e) h =
            elim (Bool-cases (not (is6 q.addr) || (is_unusable e.addr || has_nodad e.addr))) [
              | inl y ↦ noop-Fades a b (rw y at h)
              | inr y ↦ append_replace-Fades q a b n (rw y at h)
            ]

    pub add_new-Fades : add_new current q a ≡ ok b → Fades a b
    unfolding add_new
    add_new-Fades = of (by_prefix q current) (by_address q.addr current)
      where
        of : (o : Option Listed) (cs : List Listed) → add_new_of q o cs a ≡ ok b → Fades a b
        of (some e) cs h = noop-Fades a b h
        of none (c ∷ cs) h = noop-Fades a b h
        of none [] h = append_replace-Fades q a b n h

    pub renew_unusable-Fades : renew_unusable current q a ≡ ok b → Fades a b
    unfolding renew_unusable
    renew_unusable-Fades = of (by_prefix q current) (λ e f. (by_prefix-found q current e f).0)
      where
        of :
            (o : Option Listed)
            → ((e : Listed) → o ≡ some e → Memᴰ e current)
            → renew_unusable_of q o a ≡ ok b
            → Fades a b
        of none f h = noop-Fades a b h
        of (some e) f h = elim (Bool-cases (not (is6 q.addr) || not (is_unusable e.addr))) [
          | inl y ↦ noop-Fades a b (rw y at h)
          | inr y ↦
              Fades-trans a (delete_listed e a) b (delete_listed-Fades e a (f e refl))
                (append_replace-Fades q (delete_listed e a) b n (rw y at h))
        ]

    pub replace_conflicts-Fades : replace_conflicts current q a ≡ ok b → Fades a b
    unfolding replace_conflicts
    replace_conflicts-Fades =
        of (by_prefix q current) (by_address q.addr current)
          (λ e m. (mem-keep_if (λ x. has_address q.addr x.prefix) current m).0)
      where
        of :
            (o : Option Listed) (cs : List Listed)
            → ((e : Listed) → Memᴰ e cs → Memᴰ e current)
            → replace_conflicts_of q o cs a ≡ ok b
            → Fades a b
        of (some e) cs l h = noop-Fades a b h
        of none [] l h = noop-Fades a b h
        of none (c ∷ cs) l h =
            Fades-trans a (delete_all (c ∷ cs) a) b (delete_all-Fades (c ∷ cs) a l)
              (append_replace-Fades q (delete_all (c ∷ cs) a) b n h)
