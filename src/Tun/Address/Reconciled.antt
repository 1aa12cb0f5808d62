-- ===== src/Tun/Address/Reconciled.antt =====
-- planTunAddrReconciliation of tun/address_linux.go: it makes a plan for every list that
-- normalizeTunAddrPrefixSet accepts, and what the plan does.
use mathlib.Core.List.{Memᴰ}
use sysnet_linux.Base.{
  ◌≡◌, refl, sym, ◌∙◌, inl, inr, true, not, ◌||◌, List, [], ◌∷◌, Option, none, some, Result, ok,
  err, and_then-ok, Bool-cases, arith, any-true, subst, ok-injective, All, if◌then◌else◌,
}
use sysnet_linux.Base.Unseen.{any_found}
use sysnet_linux.Net.Addr.{is6}
use sysnet_linux.Net.Prefix.{Prefix, prefix_eq, prefix_eq_iff, is_valid}
use sysnet_linux.Tun.Prefixes.{NetlinkAddr, netlink_addr_from_prefix, ip_net_from_prefix}
use sysnet_linux.Tun.Address.{
  Change, Listed, Plan, PlanResult, PlanError, is_unusable, has_nodad, is_among, is_deleted,
  is_retained, delete_listed, by_prefix, by_address, set_nodad, set_nodad_of, add_new, add_new_of,
  renew_unusable, renew_unusable_of, replace_conflicts, replace_conflicts_of, delete_all,
  delete_undesired, append_replace, replace_tun_addr_change, each_in_plan, plan_changes, changes_of,
  listed_from, normalize_tun_addr_prefix_set, plan_tun_addr_reconciliation,
}
use sysnet_linux.Tun.Address.Status.{Status, status_of, after, IsOther, listed-prefix}
use sysnet_linux.Tun.Address.Normalized.{
  IsAccepted, HaveSameMembers, normalize-IsAccepted, normalize_tun_addr_prefix_set_iff,
}
use sysnet_linux.Tun.Address.Reached.{true≢false}
use sysnet_linux.Tun.Address.Settled.{settled, untouched}
use sysnet_linux.Tun.Address.Fades.{listed_from-HaveIndices}
use sysnet_linux.Tun.Address.Cleared.{cleared}

abbrev Succeeds {ℓ} : {A : Type ℓ} → Result PlanError A → Type ℓ
Succeeds {A = A} r = (a : A) × (r ≡ ok a)

replace-Succeeds : (p : Prefix) (plan : Plan) → is_valid p ≡ true → Succeeds (append_replace p plan)
unfolding append_replace replace_tun_addr_change netlink_addr_from_prefix ip_net_from_prefix
replace-Succeeds p plan v = rw v (_, refl)

each-Succeeds :
    {A : Type 0} (f : A → Plan → PlanResult) (xs : List A)
    → ((x : A) (plan : Plan) → Memᴰ x xs → Succeeds (f x plan))
    → (plan : Plan) → Succeeds (each_in_plan f xs plan)
each-Succeeds f [] h plan = (plan, refl)
each-Succeeds f (x ∷ xs) h plan =
    let (m, e) = h x plan (Memᴰ.head refl) in
    let (b, k) = each-Succeeds f xs (λ y q l. h y q (Memᴰ.tail l)) m in (b, rw e k)

module _ (current : List Listed) (p : Prefix) (plan : Plan) (v : is_valid p ≡ true) where
  set_nodad-Succeeds : Succeeds (set_nodad current p plan)
  unfolding set_nodad
  set_nodad-Succeeds = of (by_prefix p current)
    where
      of : (o : Option Listed) → Succeeds (set_nodad_of p o plan)
      of none = (plan, refl)
      of (some e) =
          elim (Bool-cases (not (is6 p.addr) || (is_unusable e.addr || has_nodad e.addr))) [
            | inl y ↦ rw y (plan, refl)
            | inr y ↦ rw y (replace-Succeeds p plan v)
          ]

  add_new-Succeeds : Succeeds (add_new current p plan)
  unfolding add_new
  add_new-Succeeds = of (by_prefix p current) (by_address p.addr current)
    where
      of : (o : Option Listed) (cs : List Listed) → Succeeds (add_new_of p o cs plan)
      of (some e) cs = (plan, refl)
      of none (c ∷ cs) = (plan, refl)
      of none [] = replace-Succeeds p plan v

  renew_unusable-Succeeds : Succeeds (renew_unusable current p plan)
  unfolding renew_unusable
  renew_unusable-Succeeds = of (by_prefix p current)
    where
      of : (o : Option Listed) → Succeeds (renew_unusable_of p o plan)
      of none = (plan, refl)
      of (some e) = elim (Bool-cases (not (is6 p.addr) || not (is_unusable e.addr))) [
        | inl y ↦ rw y (plan, refl)
        | inr y ↦ rw y (replace-Succeeds p (delete_listed e plan) v)
      ]

  replace_conflicts-Succeeds : Succeeds (replace_conflicts current p plan)
  unfolding replace_conflicts
  replace_conflicts-Succeeds = of (by_prefix p current) (by_address p.addr current)
    where
      of : (o : Option Listed) (cs : List Listed) → Succeeds (replace_conflicts_of p o cs plan)
      of (some e) cs = (plan, refl)
      of none [] = (plan, refl)
      of none (c ∷ cs) = replace-Succeeds p (delete_all (c ∷ cs) plan) v

delete_undesired-Succeeds :
    (desired : List Prefix) (e : Listed) (plan : Plan) → Succeeds (delete_undesired desired e plan)
unfolding delete_undesired
delete_undesired-Succeeds desired e plan =
    elim (Bool-cases (is_retained desired e.prefix || is_deleted e plan)) [
      | inl y ↦ rw y (plan, refl)
      | inr y ↦ rw y (delete_listed e plan, refl)
    ]

plan_changes-Succeeds :
    (current : List Listed) (desired : List Prefix)
    → IsAccepted desired
    → Succeeds (plan_changes current desired)
unfolding plan_changes
plan_changes-Succeeds current desired a =
    let (p1, e1) =
      each-Succeeds (set_nodad current) desired
        (λ p plan m. set_nodad-Succeeds current p plan (a.valid p m))
        (record { changes = []; deleted = [] }) in
    let (p2, e2) =
      each-Succeeds (add_new current) desired
        (λ p plan m. add_new-Succeeds current p plan (a.valid p m)) p1 in
    let (p3, e3) =
      each-Succeeds (renew_unusable current) desired
        (λ p plan m. renew_unusable-Succeeds current p plan (a.valid p m)) p2 in
    let (p4, e4) =
      each-Succeeds (replace_conflicts current) desired
        (λ p plan m. replace_conflicts-Succeeds current p plan (a.valid p m)) p3 in
    let (p5, e5) =
      each-Succeeds (delete_undesired desired) current
        (λ e plan m. delete_undesired-Succeeds desired e plan) p4 in
    (p5, rw (e1, e2, e3, e4) e5)

-- The status that the listed addresses give a prefix.
abbrev pub listed_status : List NetlinkAddr → Prefix → Status
listed_status current p = status_of p (by_prefix p (listed_from 0 current))

IsAccepted-again : (ps qs : List Prefix) → IsAccepted ps → HaveSameMembers ps qs → IsAccepted qs
IsAccepted-again ps qs a s = record {
  valid = λ p m. a.valid p ((s p).1 m);
  agree = λ p q m k. a.agree p q ((s p).1 m) ((s q).1 k);
}

among_mem : (p : Prefix) (qs : List Prefix) → is_among p qs ≡ true → Memᴰ p qs
among_mem p qs h =
    let (q, m, e) = any_found (prefix_eq p) qs h in
    subst (λ t. Memᴰ t qs) (sym ((prefix_eq_iff p q).0 e)) m

-- What a plan for the desired prefixes does to each of them.
abbrev pub Reconciles : List NetlinkAddr → List Prefix → List Change → Type 0
Reconciles current desired cs =
    (p : Prefix)
    → is_valid p ≡ true
    → after p (listed_status current p) cs
      ≡ (if is_among p desired then Status.in_order else Status.absent)

-- Every list of valid prefixes in which no address has two lengths has a plan, whatever addresses
-- are listed. In a kernel in which a change reaches its own prefix only, the plan leaves each of the
-- prefixes present and, for IPv6, usable with NODAD, and every other valid prefix absent.
pub plan_tun_addr_reconciliation-Reconciles :
    (current : List NetlinkAddr) (desired : List Prefix)
    → IsAccepted desired
    → (cs : List Change) × (plan_tun_addr_reconciliation current desired ≡ ok cs)
      × Reconciles current desired cs
unfolding plan_tun_addr_reconciliation
plan_tun_addr_reconciliation-Reconciles current desired a =
    let (qs, e) = (normalize_tun_addr_prefix_set_iff desired).0.1 a in
    let s = (normalize_tun_addr_prefix_set_iff desired).1 qs e in
    let b = IsAccepted-again desired qs a s in
    let (plan, f) = plan_changes-Succeeds (listed_from 0 current) qs b in
    (
      plan.changes,
      rw (e, f) refl,
      λ p v. elim (Bool-cases (is_among p desired)) [
        | inl y ↦ rw y (
            settled (listed_from 0 current) (listed-prefix 0 current) qs b p
              ((s p).0 (among_mem p desired y)) plan f)
        | inr n ↦ rw n (
            cleared (listed_from 0 current) (listed-prefix 0 current)
              (listed_from-HaveIndices 0 current) p v qs
              (λ q m. elim (Bool-cases (prefix_eq p q)) [
                | inr x ↦ x
                | inl x ↦
                    absurd (true≢false (sym (any-true (prefix_eq p) desired ((s q).1 m) x) ∙ n))
              ])
              plan f)
      ],
    )

-- A desired prefix that is listed, and usable with NODAD if it is an IPv6 one, has no change in the
-- plan: it is neither deleted nor replaced.
pub plan_tun_addr_reconciliation-untouched :
    (current : List NetlinkAddr) (desired : List Prefix) (cs : List Change)
    → plan_tun_addr_reconciliation current desired ≡ ok cs
    → (p : Prefix) → Memᴰ p desired
    → listed_status current p ≡ Status.in_order
    → All (IsOther p) cs
unfolding plan_tun_addr_reconciliation
plan_tun_addr_reconciliation-untouched current desired cs h p m o =
    let (qs, e, k) = and_then-ok (normalize_tun_addr_prefix_set desired) _ cs h in
    let (a, s) = normalize-IsAccepted desired qs e in
    of qs (plan_changes (listed_from 0 current) qs) refl k (IsAccepted-again desired qs a s)
      ((s p).0 m)
  where
    of :
        (qs : List Prefix) (r : PlanResult)
        → plan_changes (listed_from 0 current) qs ≡ r
        → changes_of r ≡ ok cs
        → IsAccepted qs
        → Memᴰ p qs
        → All (IsOther p) cs
    of qs (err x) f k b l = absurd (ground arith)
    of qs (ok plan) f k b l =
        subst (All (IsOther p)) (ok-injective k)
          (untouched (listed_from 0 current) (listed-prefix 0 current) qs b p l plan f o)
