-- ===== src/Tun/Address/Reached.antt =====
-- A loop of planTunAddrReconciliation that replaces a prefix leaves it in order, and one that does
-- nothing at the prefix leaves it as it was.
use mathlib.Core.List.{Memᴰ}
use sysnet_linux.Base.{
  ==_iff, ◌≡◌, sym, ap, ◌∙◌, ◌⊎◌, inl, inr, true, false, List, [], ◌∷◌, ok, and_then-ok, Bool-cases,
  arith, subst, ok-injective,
}
use sysnet_linux.Net.Addr.{addr_eq_iff}
use sysnet_linux.Net.Prefix.{Prefix, prefix_eq, prefix_eq_iff, is_valid, bits}
use sysnet_linux.Tun.Address.{
  ChangeKind, Listed, Plan, PlanResult, set_nodad, add_new, renew_unusable, replace_conflicts,
  delete_undesired, each_in_plan, plan_changes,
}
use sysnet_linux.Tun.Address.Status.{
  Status, after, changed, Grows, Grows-after, noop-Grows, each-Grows,
}

pub true≢false : true ≡ false → ⊥
true≢false e = absurd (ground arith)

module _ (p : Prefix) (start : Status) where
  abbrev pub status : Plan → Status
  status plan = after p start plan.changes

  -- In order, or still as `x`.
  abbrev pub IsNear : Status → Plan → Type 0
  IsNear x plan = (status plan ≡ x) ⊎ (status plan ≡ Status.in_order)

  module _ (f : Prefix → Plan → PlanResult) (x : Status)
      (own : (a b : Plan) → f p a ≡ ok b → IsNear x a → status b ≡ Status.in_order)
      (other : (q : Prefix) (a b : Plan) → prefix_eq p q ≡ false → f q a ≡ ok b → Grows p a b) where
    step-in_order :
        (q : Prefix) (a b : Plan)
        → f q a ≡ ok b
        → status a ≡ Status.in_order
        → status b ≡ Status.in_order
    step-in_order q a b h s = elim (Bool-cases (prefix_eq p q)) [
      | inl y ↦ own a b (subst (λ t. f t a ≡ ok b) (sym ((prefix_eq_iff p q).0 y)) h) (inr s)
      | inr n ↦ Grows-after p start a b (other q a b n h) ∙ s
    ]

    stays-in_order :
        (qs : List Prefix) (a b : Plan)
        → each_in_plan f qs a ≡ ok b
        → status a ≡ Status.in_order
        → status b ≡ Status.in_order
    stays-in_order [] a b h s = ap status (sym (ok-injective h)) ∙ s
    stays-in_order (q ∷ qs) a b h s =
        let (m, u, v) = and_then-ok (f q a) (each_in_plan f qs) b h in
        stays-in_order qs m b v (step-in_order q a m u s)

    pub each-in_order :
        (qs : List Prefix) (a b : Plan)
        → Memᴰ p qs
        → each_in_plan f qs a ≡ ok b
        → IsNear x a
        → status b ≡ Status.in_order
    each-in_order [] a b l h s = elim l [ ]
    each-in_order (q ∷ qs) a b (Memᴰ.head e) h s =
        let (m, u, v) = and_then-ok (f q a) (each_in_plan f qs) b h in
        stays-in_order qs m b v (own a m (subst (λ t. f t a ≡ ok m) (sym e) u) s)
    each-in_order (q ∷ qs) a b (Memᴰ.tail l) h s =
        let (m, u, v) = and_then-ok (f q a) (each_in_plan f qs) b h in
        elim (Bool-cases (prefix_eq p q)) [
          | inl y ↦
              stays-in_order qs m b v
                (own a m (subst (λ t. f t a ≡ ok m) (sym ((prefix_eq_iff p q).0 y)) u) s)
          | inr n ↦
              let g = Grows-after p start a m (other q a m n u) in
              each-in_order qs m b l v (elim s [ inl e ↦ inl (g ∙ e) | inr e ↦ inr (g ∙ e) ])
        ]

  -- A loop that does nothing at `p` grows the plan by changes of other prefixes.
  pub idle :
      (f : Prefix → Plan → PlanResult)
      → ((a : Plan) → f p a ≡ ok a)
      → (qs : List Prefix)
      → ((q : Prefix) (a b : Plan) → Memᴰ q qs → prefix_eq p q ≡ false → f q a ≡ ok b → Grows p a b)
      → (a b : Plan) → each_in_plan f qs a ≡ ok b
      → Grows p a b
  idle f own qs other a b h = each-Grows p f qs of a b h
    where
      of : (q : Prefix) (c d : Plan) → Memᴰ q qs → f q c ≡ ok d → Grows p c d
      of q c d m k = elim (Bool-cases (prefix_eq p q)) [
        | inl y ↦
            noop-Grows p c d
              (sym (own c) ∙ subst (λ t. f t c ≡ ok d) (sym ((prefix_eq_iff p q).0 y)) k)
        | inr n ↦ other q c d m n k
      ]

pub replaced_near :
    (x : Status)
    → changed ChangeKind.tun_addr_replace x ≡ Status.in_order
    → (s : Status) → (s ≡ x) ⊎ (s ≡ Status.in_order)
    → changed ChangeKind.tun_addr_replace s ≡ Status.in_order
replaced_near x h s (inl e) = ap (changed ChangeKind.tun_addr_replace) e ∙ h
replaced_near x h s (inr e) = ap (changed ChangeKind.tun_addr_replace) e

pub prefix_eq_of_bits :
    (p q : Prefix)
    → is_valid p ≡ true
    → is_valid q ≡ true
    → p.addr ≡ q.addr
    → bits p ≡ bits q
    → prefix_eq p q ≡ true
unfolding prefix_eq
prefix_eq_of_bits p q v w a b =
    rw ((addr_eq_iff p.addr q.addr).1 a) ((==_iff p.bits_plus_one q.bits_plus_one).1 (ground arith))

-- The plans between the loops.
pub record Loops (current : List Listed) (desired : List Prefix) (plan : Plan) : Type 0 where
  pub plan1 : Plan
  pub plan2 : Plan
  pub plan3 : Plan
  pub plan4 : Plan
  pub loop1 :
      each_in_plan (set_nodad current) desired (record { changes = []; deleted = [] }) ≡ ok plan1
  pub loop2 : each_in_plan (add_new current) desired plan1 ≡ ok plan2
  pub loop3 : each_in_plan (renew_unusable current) desired plan2 ≡ ok plan3
  pub loop4 : each_in_plan (replace_conflicts current) desired plan3 ≡ ok plan4
  pub loop5 : each_in_plan (delete_undesired desired) current plan4 ≡ ok plan

pub Loops-of :
    (current : List Listed) (desired : List Prefix) (plan : Plan)
    → plan_changes current desired ≡ ok plan
    → Loops current desired plan
unfolding plan_changes
Loops-of current desired plan h =
    let (p1, e1, h1) = and_then-ok _ _ plan h in
    let (p2, e2, h2) = and_then-ok _ _ plan h1 in
    let (p3, e3, h3) = and_then-ok _ _ plan h2 in
    let (p4, e4, e5) = and_then-ok _ _ plan h3 in
    record {
      plan1 = p1;
      plan2 = p2;
      plan3 = p3;
      plan4 = p4;
      loop1 = e1;
      loop2 = e2;
      loop3 = e3;
      loop4 = e4;
      loop5 = e5;
    }
