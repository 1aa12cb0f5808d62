-- ===== src/Tun/Address/Status.antt =====
-- What a plan of changes does to one prefix, in a kernel in which a change reaches its own prefix
-- only: a replacement sets NODAD, and does not help an address that is stuck as tentative or failed.
use mathlib.Core.List.{Memᴰ, foldl, foldl-append}
use sysnet_linux.Base.{
  ◌≡◌, refl, sym, ap, ◌∙◌, inl, inr, true, false, not, List, [], ◌∷◌, ◌++◌, Option, none, some, ok,
  and_then-ok, ok-injective, Bool-cases, if◌then◌else◌, All, All-append, arith, ℕ, subst,
}
use sysnet_linux.Net.Addr.{is6}
use sysnet_linux.Net.Prefix.{Prefix, prefix_eq, prefix_eq_iff, is_valid, zero_prefix}
use sysnet_linux.Tun.Prefixes.{NetlinkAddr, tun_addr_prefix}
use sysnet_linux.Tun.Address.{
  ChangeKind, Change, Listed, Plan, PlanResult, is_unusable, has_nodad, has_prefix,
  delete_tun_addr_change, delete_listed, append_replace, append_change, replace_of,
  replace_tun_addr_change, each_in_plan, by_prefix, listed_from,
}

pub data Status : Type 0 where
  absent lacks_nodad stuck in_order : Status

abbrev pub status_of : Prefix → Option Listed → Status
status_of p none = Status.absent
status_of p (some e) =
    if not (is6 p.addr)
    then Status.in_order
    else (if is_unusable e.addr
        then Status.stuck
        else (if has_nodad e.addr then Status.in_order else Status.lacks_nodad))

abbrev pub changed : ChangeKind → Status → Status
changed ChangeKind.tun_addr_replace Status.stuck = Status.stuck
changed ChangeKind.tun_addr_replace Status.absent = Status.in_order
changed ChangeKind.tun_addr_replace Status.lacks_nodad = Status.in_order
changed ChangeKind.tun_addr_replace Status.in_order = Status.in_order
changed ChangeKind.tun_addr_delete s = Status.absent
changed (ChangeKind.other_kind k) s = s

module _ (p : Prefix) where
  abbrev pub effect : Status → Change → Status
  effect s c = if prefix_eq p c.prefix then changed c.kind s else s

  abbrev pub after : Status → List Change → Status
  after = foldl effect

  -- A change of another prefix.
  abbrev pub IsOther : Change → Type 0
  IsOther c = prefix_eq p c.prefix ≡ false

  -- The plan grows by changes of other prefixes.
  abbrev pub Grows : Plan → Plan → Type 0
  Grows plan plan' = (new : List Change) × (plan'.changes ≡ plan.changes ++ new) × All IsOther new

  after-other : (s : Status) (cs : List Change) → All IsOther cs → after s cs ≡ s
  after-other s [] h = refl
  after-other s (c ∷ cs) h = rw h.0 (after-other s cs h.1)

  pub Grows-after :
      (s : Status) (plan plan' : Plan)
      → Grows plan plan'
      → after s plan'.changes ≡ after s plan.changes
  Grows-after s plan plan' (new, e, h) =
      ap (after s) e
      ∙ foldl-append effect s plan.changes new
      ∙ after-other (after s plan.changes) new h

  append_nil : (xs : List Change) → xs ++ [] ≡ xs
  append_nil [] = refl
  append_nil (x ∷ xs) = ap (λ t. x ∷ t) (append_nil xs)

  append_assoc : (xs ys zs : List Change) → (xs ++ ys) ++ zs ≡ xs ++ (ys ++ zs)
  append_assoc [] ys zs = refl
  append_assoc (x ∷ xs) ys zs = ap (λ t. x ∷ t) (append_assoc xs ys zs)

  pub Grows-refl : (plan : Plan) → Grows plan plan
  Grows-refl plan = ([], sym (append_nil plan.changes), tt)

  pub Grows-trans : (a b c : Plan) → Grows a b → Grows b c → Grows a c
  Grows-trans a b c (m, e, h) (n, f, k) =
      (m ++ n, f ∙ ap (λ t. t ++ n) e ∙ append_assoc a.changes m n, All-append IsOther m n h k)

  pub noop-Grows : (plan plan' : Plan) → Path PlanResult (ok plan) (ok plan') → Grows plan plan'
  noop-Grows plan plan' e = subst (Grows plan) (ok-injective e) (Grows-refl plan)

  pub each-Grows :
      {A : Type 0} (f : A → Plan → PlanResult) (xs : List A)
      → ((x : A) (a b : Plan) → Memᴰ x xs → f x a ≡ ok b → Grows a b)
      → (a b : Plan) → each_in_plan f xs a ≡ ok b
      → Grows a b
  each-Grows f [] h a b e = noop-Grows a b e
  each-Grows f (x ∷ xs) h a b e =
      let (m, u, v) = and_then-ok (f x a) (each_in_plan f xs) b e in
      Grows-trans a m b (h x a m (Memᴰ.head refl) u)
        (each-Grows f xs (λ y c d k. h y c d (Memᴰ.tail k)) m b v)

  -- A replacement at the end of the plan.
  pub append_replace-changes :
      (q : Prefix) (a b : Plan)
      → append_replace q a ≡ ok b
      → (c : Change) × (b.changes ≡ a.changes ++ c ∷ [])
        × (c.kind ≡ ChangeKind.tun_addr_replace)
        × (c.prefix ≡ q)
        × (b.deleted ≡ a.deleted)
  unfolding append_replace replace_tun_addr_change
  append_replace-changes q a b h =
      let (c, u, v) = and_then-ok (replace_tun_addr_change q) (append_change a) b h in
      (
        c,
        sym (ap (λ t. t.changes) (ok-injective v)),
        (replaced c _ u).0,
        (replaced c _ u).1,
        sym (ap (λ t. t.deleted) (ok-injective v)),
      )
    where
      replaced :
          (c : Change) (o : Option NetlinkAddr)
          → replace_of q o ≡ ok c
          → (c.kind ≡ ChangeKind.tun_addr_replace) × (c.prefix ≡ q)
      replaced c none e = absurd (ground arith)
      replaced c (some x) e =
          (sym (ap (λ t. t.kind) (ok-injective e)), sym (ap (λ t. t.prefix) (ok-injective e)))

  pub append_replace-Grows :
      (q : Prefix) (a b : Plan) → prefix_eq p q ≡ false → append_replace q a ≡ ok b → Grows a b
  append_replace-Grows q a b n h =
      let (c, e, k, r, d) = append_replace-changes q a b h in (c ∷ [], e, (rw r n, tt))

  pub append_replace-after :
      (s : Status) (a b : Plan)
      → append_replace p a ≡ ok b
      → after s b.changes ≡ changed ChangeKind.tun_addr_replace (after s a.changes)
  append_replace-after s a b h =
      let (c, e, k, r, d) = append_replace-changes p a b h in
      ap (after s) e
      ∙ foldl-append effect s a.changes (c ∷ [])
      ∙ (rw (r, (prefix_eq_iff p p).1 refl) (ap (λ t. changed t (after s a.changes)) k))

  -- The deletion of a listed address.
  pub delete-prefix :
      (e : Listed)
      → e.prefix ≡ tun_addr_prefix e.addr
      → is_valid p ≡ true
      → prefix_eq p (delete_tun_addr_change e.addr).prefix ≡ has_prefix p e.prefix
  unfolding delete_tun_addr_change
  delete-prefix e h v = rw h (of (tun_addr_prefix e.addr))
    where
      of :
          (o : Option Prefix)
          → prefix_eq p (elim o [ some q ↦ q | none ↦ zero_prefix ]) ≡ has_prefix p o
      of (some q) = refl
      of none = elim (Bool-cases (prefix_eq p zero_prefix)) [
        | inr n ↦ n
        | inl y ↦ absurd (ground (arith, ap is_valid ((prefix_eq_iff p zero_prefix).0 y)))
      ]

  pub delete_listed-Grows :
      (e : Listed) (a : Plan)
      → e.prefix ≡ tun_addr_prefix e.addr
      → is_valid p ≡ true
      → has_prefix p e.prefix ≡ false
      → Grows a (delete_listed e a)
  unfolding delete_listed
  delete_listed-Grows e a h v n =
      (delete_tun_addr_change e.addr ∷ [], refl, (delete-prefix e h v ∙ n, tt))

  pub delete_listed-after :
      (e : Listed) (s : Status) (a : Plan)
      → e.prefix ≡ tun_addr_prefix e.addr
      → is_valid p ≡ true
      → has_prefix p e.prefix ≡ true
      → after s (delete_listed e a).changes ≡ Status.absent
  unfolding delete_listed delete_tun_addr_change
  delete_listed-after e s a h v n =
      foldl-append effect s a.changes (delete_tun_addr_change e.addr ∷ [])
      ∙ rw (delete-prefix e h v ∙ n) refl

pub by_prefix-found :
    (p : Prefix) (es : List Listed) (e : Listed)
    → by_prefix p es ≡ some e
    → Memᴰ e es × (has_prefix p e.prefix ≡ true)
unfolding by_prefix
by_prefix-found p [] e h = absurd (ground arith)
by_prefix-found p (x ∷ es) e h = elim (Bool-cases (has_prefix p x.prefix)) [
  | inl y ↦ ground_first (some-injective (rw y at h)) y
  | inr n ↦ let (m, k) = by_prefix-found p es e (rw n at h) in (Memᴰ.tail m, k)
]
  where
    some-injective : Path (Option Listed) (some x) (some e) → x ≡ e
    some-injective q = ap (λ o. elim o [ some t ↦ t | none ↦ x ]) q

    ground_first :
        x ≡ e → has_prefix p x.prefix ≡ true → Memᴰ e (x ∷ es) × (has_prefix p e.prefix ≡ true)
    ground_first q y = (Memᴰ.head (sym q), rw (← q) y)

pub by_prefix-none :
    (p : Prefix) (es : List Listed) (e : Listed)
    → by_prefix p es ≡ none
    → Memᴰ e es
    → has_prefix p e.prefix ≡ false
unfolding by_prefix
by_prefix-none p [] e h m = elim m [ ]
by_prefix-none p (x ∷ es) e h m = elim (Bool-cases (has_prefix p x.prefix)) [
  | inl y ↦ absurd (some-none (rw y at h))
  | inr n ↦ elim m [ Memᴰ.head q ↦ rw q n | Memᴰ.tail k ↦ by_prefix-none p es e (rw n at h) k ]
]
  where
    some-none : Path (Option Listed) (some x) none → ⊥
    some-none q = absurd (ground arith)

pub listed-prefix :
    (i : ℕ) (as_ : List NetlinkAddr) (e : Listed)
    → Memᴰ e (listed_from i as_)
    → e.prefix ≡ tun_addr_prefix e.addr
unfolding listed_from
listed-prefix i [] e m = elim m [ ]
listed-prefix i (a ∷ as_) e (Memᴰ.head q) = rw q refl
listed-prefix i (a ∷ as_) e (Memᴰ.tail m) = listed-prefix _ as_ e m
