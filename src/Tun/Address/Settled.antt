-- ===== src/Tun/Address/Settled.antt =====
-- planTunAddrReconciliation of tun/address_linux.go brings each prefix to its place: a desired one in
-- order, any other absent.
use mathlib.Core.List.{Memᴰ}
use sysnet_linux.Base.{
  All, ◌≡◌, refl, sym, ap, ◌∙◌, inl, inr, true, false, List, [], ◌∷◌, none, some, ok, Bool-cases,
  Option-cases, List-cases, arith, mem-keep_if, subst,
}
use sysnet_linux.Net.Addr.{is6}
use sysnet_linux.Net.Prefix.{Prefix}
use sysnet_linux.Tun.Address.{
  ChangeKind, Listed, Plan, is_unusable, has_nodad, has_prefix, has_address, delete_listed,
  by_prefix, by_address, set_nodad, add_new, renew_unusable, replace_conflicts, plan_changes,
  delete_all,
}
use sysnet_linux.Tun.Address.Status.{
  Status, status_of, IsOther, Grows-trans, changed, Grows-after, append_replace-after,
  delete_listed-after, by_prefix-found, by_prefix-none,
}
use sysnet_linux.Tun.Address.Loops.{
  AreRead, set_nodad-other, add_new-other, renew_unusable-other, replace_conflicts-other,
  delete_all-Grows,
}
use sysnet_linux.Tun.Address.Normalized.{IsAccepted}
use sysnet_linux.Tun.Address.Reached.{status, each-in_order, replaced_near, Loops, Loops-of}
use sysnet_linux.Tun.Address.Quiet.{
  empty_plan, quiet1, quiet2, quiet3, quiet4, quiet5, idle1, idle2, idle3, idle4, idle5,
}

module _ (current : List Listed) (read : AreRead current) (desired : List Prefix)
    (accepted : IsAccepted desired) (p : Prefix) (m : Memᴰ p desired) where
  abbrev first : Status
  first = status_of p (by_prefix p current)

  -- The loops after the one that put `p` in order.
  abbrev IsSettled : Plan → Type 0
  IsSettled plan = status p first plan ≡ Status.in_order

  module _ (plan : Plan) (l : Loops current desired plan) where
    open l use {plan1, plan2, plan3, plan4, loop1, loop2, loop3, loop4, loop5}

    settled_new : by_prefix p current ≡ none → by_address p.addr current ≡ [] → IsSettled plan
    unfolding set_nodad add_new renew_unusable replace_conflicts
    settled_new f c =
        idle5 current read desired accepted p m plan4 plan loop5
        ∙ idle4 current read desired accepted p m (λ a. rw (f, c) refl) plan3 plan4 loop4
        ∙ idle3 current read desired accepted p m (λ a. rw f refl) plan2 plan3 loop3
        ∙ each-in_order p first (add_new current) Status.absent
            (λ a b h s.
              append_replace-after p first a b (rw (f, c) at h)
              ∙ replaced_near Status.absent refl (status p first a) s)
            (λ q a b. add_new-other current read p (accepted.valid p m) q a b) desired plan1 plan2 m
            loop2
            (inl (
              idle1 current read desired accepted p m (λ a. rw f refl)
                (empty_plan current read desired accepted p m) plan1 loop1
              ∙ ap (status_of p) f))

    settled_conflict :
        (c : Listed) (cs : List Listed)
        → by_prefix p current ≡ none
        → by_address p.addr current ≡ c ∷ cs
        → IsSettled plan
    unfolding set_nodad add_new renew_unusable replace_conflicts
    settled_conflict c cs f e =
        idle5 current read desired accepted p m plan4 plan loop5
        ∙ each-in_order p first (replace_conflicts current) Status.absent
            (λ a b h s.
              append_replace-after p first (delete_all (c ∷ cs) a) b (rw (f, e) at h)
              ∙ ap (changed ChangeKind.tun_addr_replace) (
                  Grows-after p first a (delete_all (c ∷ cs) a)
                    (delete_all-Grows current read p (accepted.valid p m) (c ∷ cs) a deletable))
              ∙ replaced_near Status.absent refl (status p first a) s)
            (λ q a b n.
              replace_conflicts-other current read p (accepted.valid p m) q a b n (λ x k _.
                by_prefix-none p current x f
                  (mem-keep_if (λ y. has_address q.addr y.prefix) current k).0))
            desired plan3 plan4 m loop4
            (inl (
              idle3 current read desired accepted p m (λ a. rw f refl) plan2 plan3 loop3
              ∙ idle2 current read desired accepted p m (λ a. rw (f, e) refl) plan1 plan2 loop2
              ∙ idle1 current read desired accepted p m (λ a. rw f refl)
                  (empty_plan current read desired accepted p m) plan1 loop1
              ∙ ap (status_of p) f))
      where
        deletable :
            (x : Listed) → Memᴰ x (c ∷ cs) → Memᴰ x current × (has_prefix p x.prefix ≡ false)
        deletable x k =
            let k' =
              mem-keep_if (λ y. has_address p.addr y.prefix) current
                (subst (λ t. Memᴰ x t) (sym e) k) in
            (k'.0, by_prefix-none p current x f k'.0)

    settled_listed : (e : Listed) → by_prefix p current ≡ some e → IsSettled plan
    unfolding set_nodad add_new renew_unusable replace_conflicts
    settled_listed e f =
        idle5 current read desired accepted p m plan4 plan loop5
        ∙ idle4 current read desired accepted p m (λ a. rw f refl) plan3 plan4 loop4
        ∙ elim (Bool-cases (is6 p.addr)) [
          | inr n ↦ unmoved (λ a. rw (f, n) refl) (λ a. rw (f, n) refl) (rw (f, n) refl)
          | inl y ↦ elim (Bool-cases (is_unusable e.addr)) [
            | inl u ↦
                each-in_order p first (renew_unusable current) Status.stuck
                  (λ a b h s.
                    append_replace-after p first (delete_listed e a) b (rw (f, y, u) at h)
                    ∙ ap (changed ChangeKind.tun_addr_replace) (
                        delete_listed-after p e first a (read e found.0) (accepted.valid p m)
                          found.1))
                  (λ q a b. renew_unusable-other current read p (accepted.valid p m) q a b) desired
                  plan2 plan3 m loop3
                  (inl (
                    idle2 current read desired accepted p m (λ a. rw f refl) plan1 plan2 loop2
                    ∙ idle1 current read desired accepted p m (λ a. rw (f, y, u) refl)
                        (empty_plan current read desired accepted p m) plan1 loop1
                    ∙ rw (f, y, u) refl))
            | inr u ↦ elim (Bool-cases (has_nodad e.addr)) [
              | inl d ↦
                  unmoved (λ a. rw (f, y, u, d) refl) (λ a. rw (f, y, u) refl)
                    (rw (f, y, u, d) refl)
              | inr d ↦
                  idle3 current read desired accepted p m (λ a. rw (f, y, u) refl) plan2 plan3 loop3
                  ∙ idle2 current read desired accepted p m (λ a. rw f refl) plan1 plan2 loop2
                  ∙ each-in_order p first (set_nodad current) Status.lacks_nodad
                      (λ a b h s.
                        append_replace-after p first a b (rw (f, y, u, d) at h)
                        ∙ replaced_near Status.lacks_nodad refl (status p first a) s)
                      (λ q a b. set_nodad-other current read p (accepted.valid p m) q a b) desired
                      (empty_plan current read desired accepted p m) plan1 m loop1
                      (inl (rw (f, y, u, d) refl))
            ]
          ]
        ]
      where
        found : Memᴰ e current × (has_prefix p e.prefix ≡ true)
        found = by_prefix-found p current e f

        unmoved :
            ((a : Plan) → set_nodad current p a ≡ ok a)
            → ((a : Plan) → renew_unusable current p a ≡ ok a)
            → first ≡ Status.in_order
            → status p first plan3 ≡ Status.in_order
        unmoved i1 i3 s =
            idle3 current read desired accepted p m i3 plan2 plan3 loop3
            ∙ idle2 current read desired accepted p m (λ a. rw f refl) plan1 plan2 loop2
            ∙ idle1 current read desired accepted p m i1
                (empty_plan current read desired accepted p m) plan1 loop1
            ∙ s

  -- A desired prefix is in order after the plan, whatever it was.
  pub settled : (plan : Plan) → plan_changes current desired ≡ ok plan → IsSettled plan
  settled plan h =
      let l = Loops-of current desired plan h in
      elim (Option-cases (by_prefix p current)) [
        | inr (e, f) ↦ settled_listed plan l e f
        | inl f ↦ elim (List-cases (by_address p.addr current)) [
          | inl c ↦ settled_new plan l f c
          | inr (c, cs, e) ↦ settled_conflict plan l c cs f e
        ]
      ]

  -- A desired prefix that is in order has no change of its own in the plan.
  pub untouched :
      (plan : Plan)
      → plan_changes current desired ≡ ok plan
      → first ≡ Status.in_order
      → All (IsOther p) plan.changes
  unfolding set_nodad add_new renew_unusable replace_conflicts
  untouched plan h s = elim (Option-cases (by_prefix p current)) [
    | inl f ↦ absurd (not-absent (sym (ap (status_of p) f) ∙ s))
    | inr (e, f) ↦ elim (Bool-cases (is6 p.addr)) [
      | inr n ↦ of e f (λ a. rw (f, n) refl) (λ a. rw (f, n) refl)
      | inl y ↦ elim (Bool-cases (is_unusable e.addr)) [
        | inl u ↦ absurd (not-stuck (rw (f, y, u) at s))
        | inr u ↦ elim (Bool-cases (has_nodad e.addr)) [
          | inl d ↦ of e f (λ a. rw (f, y, u, d) refl) (λ a. rw (f, y, u) refl)
          | inr d ↦ absurd (not-lacking (rw (f, y, u, d) at s))
        ]
      ]
    ]
  ]
    where
      not-absent : Status.absent ≡ Status.in_order → ⊥
      not-absent e = absurd (ground arith)

      not-stuck : Status.stuck ≡ Status.in_order → ⊥
      not-stuck e = absurd (ground arith)

      not-lacking : Status.lacks_nodad ≡ Status.in_order → ⊥
      not-lacking e = absurd (ground arith)

      of :
          (e : Listed)
          → by_prefix p current ≡ some e
          → ((a : Plan) → set_nodad current p a ≡ ok a)
          → ((a : Plan) → renew_unusable current p a ≡ ok a)
          → All (IsOther p) plan.changes
      of e f i1 i3 =
          let l = Loops-of current desired plan h in
          let g1 =
            quiet1 current read desired accepted p m i1
              (empty_plan current read desired accepted p m) l.plan1 l.loop1 in
          let g2 =
            quiet2 current read desired accepted p m (λ a. rw f refl) l.plan1 l.plan2 l.loop2 in
          let g3 = quiet3 current read desired accepted p m i3 l.plan2 l.plan3 l.loop3 in
          let g4 =
            quiet4 current read desired accepted p m (λ a. rw f refl) l.plan3 l.plan4 l.loop4 in
          let g5 = quiet5 current read desired accepted p m l.plan4 plan l.loop5 in
          let (new, c, o) =
            Grows-trans p (empty_plan current read desired accepted p m) l.plan1 plan g1 (
              Grows-trans p l.plan1 l.plan2 plan g2 (
                Grows-trans p l.plan2 l.plan3 plan g3
                  (Grows-trans p l.plan3 l.plan4 plan g4 g5))) in
          subst (All (IsOther p)) (sym c) o
