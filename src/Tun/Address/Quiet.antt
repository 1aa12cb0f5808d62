-- ===== src/Tun/Address/Quiet.antt =====
-- The five loops of planTunAddrReconciliation, as a desired prefix sees them: a loop that does
-- nothing at the prefix itself has no change of it.
use mathlib.Core.List.{Memᴰ}
use sysnet_linux.Base.{
  ◌≡◌, refl, sym, ap, ◌∙◌, inl, inr, true, false, ◌||◌, List, [], Option, none, some, ok,
  Bool-cases, any-true, mem-keep_if, subst, if◌then◌else◌,
}
use sysnet_linux.Net.Addr.{addr_eq_iff}
use sysnet_linux.Net.Prefix.{Prefix, prefix_eq, prefix_eq_iff, is_valid}
use sysnet_linux.Tun.Address.{
  Listed, Plan, PlanResult, has_prefix, has_address, is_among, is_deleted, delete_listed, by_prefix,
  by_address, set_nodad, add_new, renew_unusable, replace_conflicts, delete_undesired, is_retained,
  each_in_plan,
}
use sysnet_linux.Tun.Address.Status.{Status, status_of, Grows, Grows-after, noop-Grows, each-Grows}
use sysnet_linux.Tun.Address.Loops.{
  AreRead, set_nodad-other, add_new-other, renew_unusable-other, replace_conflicts-other,
  delete_undesired-other,
}
use sysnet_linux.Tun.Address.Normalized.{IsAccepted}
use sysnet_linux.Tun.Address.Reached.{true≢false, status, idle, prefix_eq_of_bits}

module _ (current : List Listed) (read : AreRead current) (desired : List Prefix)
    (accepted : IsAccepted desired) (p : Prefix) (m : Memᴰ p desired) where
  abbrev pub valid : is_valid p ≡ true
  valid = accepted.valid p m

  abbrev pub empty_plan : Plan
  empty_plan = record { changes = []; deleted = [] }

  abbrev pub first : Status
  first = status_of p (by_prefix p current)

  listed_elsewhere :
      (q : Prefix) (e : Listed)
      → Memᴰ q desired
      → prefix_eq p q ≡ false
      → Memᴰ e (by_address q.addr current)
      → has_prefix p e.prefix ≡ false
  listed_elsewhere q e l n k =
      of e.prefix (mem-keep_if (λ x. has_address q.addr x.prefix) current k).1
    where
      of : (o : Option Prefix) → has_address q.addr o ≡ true → has_prefix p o ≡ false
      of none h = refl
      of (some r) h = elim (Bool-cases (prefix_eq p r)) [
        | inr x ↦ x
        | inl y ↦
            let a : p.addr ≡ q.addr =
              ap (λ t. t.addr) ((prefix_eq_iff p r).0 y) ∙ sym ((addr_eq_iff q.addr r.addr).0 h) in
            absurd (
              true≢false (
                sym (prefix_eq_of_bits p q valid (accepted.valid q l) a (accepted.agree p q m l a))
                ∙ n))
      ]

  pub quiet1 :
      ((a : Plan) → set_nodad current p a ≡ ok a)
      → (a b : Plan) → each_in_plan (set_nodad current) desired a ≡ ok b
      → Grows p a b
  quiet1 own =
      idle p first (set_nodad current) own desired
        (λ q a b l. set_nodad-other current read p valid q a b)

  pub quiet2 :
      ((a : Plan) → add_new current p a ≡ ok a)
      → (a b : Plan) → each_in_plan (add_new current) desired a ≡ ok b
      → Grows p a b
  quiet2 own =
      idle p first (add_new current) own desired
        (λ q a b l. add_new-other current read p valid q a b)

  pub quiet3 :
      ((a : Plan) → renew_unusable current p a ≡ ok a)
      → (a b : Plan) → each_in_plan (renew_unusable current) desired a ≡ ok b
      → Grows p a b
  quiet3 own =
      idle p first (renew_unusable current) own desired
        (λ q a b l. renew_unusable-other current read p valid q a b)

  pub quiet4 :
      ((a : Plan) → replace_conflicts current p a ≡ ok a)
      → (a b : Plan) → each_in_plan (replace_conflicts current) desired a ≡ ok b
      → Grows p a b
  quiet4 own = idle p first (replace_conflicts current) own desired (λ q a b l n.
      replace_conflicts-other current read p valid q a b n (λ e k f. listed_elsewhere q e l n k))

  among : is_among p desired ≡ true
  among = any-true (prefix_eq p) desired m ((prefix_eq_iff p p).1 refl)

  pub quiet5 : (a b : Plan) → each_in_plan (delete_undesired desired) current a ≡ ok b → Grows p a b
  unfolding delete_undesired
  quiet5 a b h = each-Grows p (delete_undesired desired) current of a b h
    where
      of :
          (e : Listed) (c d : Plan)
          → Memᴰ e current
          → delete_undesired desired e c ≡ ok d
          → Grows p c d
      of e c d k h = elim (Bool-cases (has_prefix p e.prefix)) [
        | inr n ↦ delete_undesired-other current read p valid desired e c d k n h
        | inl y ↦ noop-Grows p c d (sym (kept e.prefix y) ∙ h)
      ]
        where
          kept :
              (o : Option Prefix)
              → has_prefix p o ≡ true
              → Path PlanResult
                  (if is_retained desired o || is_deleted e c then ok c else ok (delete_listed e c))
                  (ok c)
          kept none y = absurd (true≢false (sym y))
          kept (some r) y =
              rw (subst (λ t. is_among t desired ≡ true) ((prefix_eq_iff p r).0 y) among) refl

  pub idle1 :
      ((a : Plan) → set_nodad current p a ≡ ok a)
      → (a b : Plan) → each_in_plan (set_nodad current) desired a ≡ ok b
      → status p first b ≡ status p first a
  idle1 own a b h = Grows-after p first a b (quiet1 own a b h)

  pub idle2 :
      ((a : Plan) → add_new current p a ≡ ok a)
      → (a b : Plan) → each_in_plan (add_new current) desired a ≡ ok b
      → status p first b ≡ status p first a
  idle2 own a b h = Grows-after p first a b (quiet2 own a b h)

  pub idle3 :
      ((a : Plan) → renew_unusable current p a ≡ ok a)
      → (a b : Plan) → each_in_plan (renew_unusable current) desired a ≡ ok b
      → status p first b ≡ status p first a
  idle3 own a b h = Grows-after p first a b (quiet3 own a b h)

  pub idle4 :
      ((a : Plan) → replace_conflicts current p a ≡ ok a)
      → (a b : Plan) → each_in_plan (replace_conflicts current) desired a ≡ ok b
      → status p first b ≡ status p first a
  idle4 own a b h = Grows-after p first a b (quiet4 own a b h)

  pub idle5 :
      (a b : Plan)
      → each_in_plan (delete_undesired desired) current a ≡ ok b
      → status p first b ≡ status p first a
  idle5 a b h = Grows-after p first a b (quiet5 a b h)
