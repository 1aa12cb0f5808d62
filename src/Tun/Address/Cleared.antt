-- ===== src/Tun/Address/Cleared.antt =====
-- planTunAddrReconciliation of tun/address_linux.go takes every prefix away that is not desired.
use mathlib.Core.List.{Memᴰ}
use sysnet_linux.Base.{
  ◌≡◌, refl, sym, ap, ◌∙◌, inl, inr, true, false, ◌||◌, List, [], ◌∷◌, Option, none, some, ok,
  and_then-ok, Bool-cases, Option-cases, subst, ok-injective,
}
use sysnet_linux.Base.Unseen.{any_found}
use sysnet_linux.Net.Prefix.{Prefix, prefix_eq, prefix_eq_iff, is_valid}
use sysnet_linux.Tun.Address.{
  Listed, Plan, has_prefix, is_among, is_deleted, is_retained, by_prefix, set_nodad, add_new,
  renew_unusable, replace_conflicts, delete_undesired, each_in_plan, plan_changes,
}
use sysnet_linux.Tun.Address.Status.{status_of, by_prefix-found}
use sysnet_linux.Tun.Address.Loops.{AreRead}
use sysnet_linux.Tun.Address.Reached.{true≢false, Loops-of}
use sysnet_linux.Tun.Address.Fades.{
  HaveIndices, IsGone, Deletes, Fades, noop-Fades, delete_listed-Gone, delete_listed-Fades,
  each-Fades, set_nodad-Fades, add_new-Fades, renew_unusable-Fades, replace_conflicts-Fades,
}

module _ (current : List Listed) (read : AreRead current) (indices : HaveIndices current)
    (p : Prefix) (valid : is_valid p ≡ true) where
  module _ (desired : List Prefix)
      (fresh : (q : Prefix) → Memᴰ q desired → prefix_eq p q ≡ false) where
    delete_undesired-Fades :
        (e : Listed) (a b : Plan)
        → Memᴰ e current
        → delete_undesired desired e a ≡ ok b
        → Fades current read indices p valid a b
    unfolding delete_undesired
    delete_undesired-Fades e a b m h =
        elim (Bool-cases (is_retained desired e.prefix || is_deleted e a)) [
          | inl y ↦ noop-Fades current read indices p valid a b (rw y at h)
          | inr y ↦
              subst (Fades current read indices p valid a) (ok-injective (rw y at h))
                (delete_listed-Fades current read indices p valid e a m)
        ]

    not_retained : (o : Option Prefix) → has_prefix p o ≡ true → is_retained desired o ≡ false
    not_retained none y = refl
    not_retained (some r) y = elim (Bool-cases (is_among r desired)) [
      | inr x ↦ x
      | inl x ↦
          let (q, m, t) = any_found (prefix_eq r) desired x in
          absurd (
            true≢false (
              sym ((prefix_eq_iff p q).1 ((prefix_eq_iff p r).0 y ∙ (prefix_eq_iff r q).0 t))
              ∙ fresh q m))
    ]

    delete_undesired-Gone :
        (e : Listed) (a b : Plan)
        → Memᴰ e current
        → has_prefix p e.prefix ≡ true
        → Deletes current read indices p valid a
        → delete_undesired desired e a ≡ ok b
        → IsGone current read indices p valid b
    unfolding delete_undesired
    delete_undesired-Gone e a b m y k h = elim (Bool-cases (is_deleted e a)) [
      | inl d ↦
          subst (IsGone current read indices p valid)
            (ok-injective (rw (not_retained e.prefix y, d) at h)) (k e m y d)
      | inr d ↦
          subst (IsGone current read indices p valid)
            (ok-injective (rw (not_retained e.prefix y, d) at h))
            (delete_listed-Gone current read indices p valid e a m y)
    ]

    each-Gone :
        (xs : List Listed) (e : Listed) (a b : Plan)
        → ((x : Listed) → Memᴰ x xs → Memᴰ x current)
        → Memᴰ e xs
        → has_prefix p e.prefix ≡ true
        → Deletes current read indices p valid a
        → each_in_plan (delete_undesired desired) xs a ≡ ok b
        → IsGone current read indices p valid b
    each-Gone [] e a b l m y k h = elim m [ ]
    each-Gone (x ∷ xs) e a b l (Memᴰ.head r) y k h =
        let (c, u, v) = and_then-ok (delete_undesired desired x a) _ b h in
        (each-Fades current read indices p valid (delete_undesired desired) xs
            (λ z f g i. delete_undesired-Fades z f g (l z (Memᴰ.tail i))) c b v).0
          (delete_undesired-Gone x a c (l x (Memᴰ.head refl))
            (subst (λ t. has_prefix p t.prefix ≡ true) r y) k u)
    each-Gone (x ∷ xs) e a b l (Memᴰ.tail m) y k h =
        let (c, u, v) = and_then-ok (delete_undesired desired x a) _ b h in
        each-Gone xs e c b (λ z i. l z (Memᴰ.tail i)) m y
          ((delete_undesired-Fades x a c (l x (Memᴰ.head refl)) u).1 k) v

    -- A prefix that is not desired is absent after the plan, whatever it was.
    pub cleared :
        (plan : Plan)
        → plan_changes current desired ≡ ok plan
        → IsGone current read indices p valid plan
    cleared plan h =
        let l = Loops-of current desired plan h in
        let f1 =
          each-Fades current read indices p valid (set_nodad current) desired
            (λ q a b m. set_nodad-Fades current read indices p valid q (fresh q m) a b) _ _
            l.loop1 in
        let f2 =
          each-Fades current read indices p valid (add_new current) desired
            (λ q a b m. add_new-Fades current read indices p valid q (fresh q m) a b) _ _ l.loop2 in
        let f3 =
          each-Fades current read indices p valid (renew_unusable current) desired
            (λ q a b m. renew_unusable-Fades current read indices p valid q (fresh q m) a b) _ _
            l.loop3 in
        let f4 =
          each-Fades current read indices p valid (replace_conflicts current) desired
            (λ q a b m. replace_conflicts-Fades current read indices p valid q (fresh q m) a b) _ _
            l.loop4 in
        let f5 =
          each-Fades current read indices p valid (delete_undesired desired) current
            (λ e a b m. delete_undesired-Fades e a b m) _ _ l.loop5 in
        elim (Option-cases (by_prefix p current)) [
          | inl n ↦ f5.0 (f4.0 (f3.0 (f2.0 (f1.0 (ap (status_of p) n)))))
          | inr (e, f) ↦
              let (m, y) = by_prefix-found p current e f in
              each-Gone current e l.plan4 plan (λ x i. i) m y
                (f4.1 (f3.1 (f2.1 (f1.1 (λ x i j t. absurd (true≢false (sym t))))))) l.loop5
        ]
