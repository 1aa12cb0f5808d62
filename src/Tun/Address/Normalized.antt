-- ===== src/Tun/Address/Normalized.antt =====
-- normalizeTunAddrPrefixSet of tun/address_linux.go: which lists it accepts, and what it makes of
-- them.
use mathlib.Core.List.{Memᴰ}
use sysnet_linux.Base.{
  ℕ, ◌==◌, ==_iff, ◌≡◌, refl, sym, ap, ◌∙◌, ◌↔◌, ◌⊎◌, inl, inr, Bool, true, false, not, List, [],
  ◌∷◌, Option, none, some, Result, ok, err, Bool-cases, arith, subst, ok-injective, if◌then◌else◌,
}
use sysnet_linux.Base.Unseen.{any_found}
use sysnet_linux.Net.Addr.{Addr, addr_eq, addr_eq_iff}
use sysnet_linux.Net.Prefix.{Prefix, prefix_eq, prefix_eq_iff, is_valid, bits}
use sysnet_linux.Tun.Address.{
  PlanError, length_of, is_among, conflict, put_unless_seen, unless_conflict, normalize_set_from,
  normalize_tun_addr_prefix_set,
}

-- Valid prefixes, and one length for each address.
pub record IsAccepted (ps : List Prefix) : Type 0 where
  pub valid : (p : Prefix) → Memᴰ p ps → is_valid p ≡ true
  pub agree : (p q : Prefix) → Memᴰ p ps → Memᴰ q ps → p.addr ≡ q.addr → bits p ≡ bits q

abbrev pub HaveSameMembers : List Prefix → List Prefix → Type 0
HaveSameMembers ps qs = (p : Prefix) → Memᴰ p ps ↔ Memᴰ p qs

abbrev Agrees : Prefix → List (Addr × ℕ) → Type 0
Agrees p ls = (n : ℕ) → length_of p.addr ls ≡ some n → n ≡ bits p

no-conflict :
    (p : Prefix) (ls : List (Addr × ℕ)) → conflict p (length_of p.addr ls) ≡ none → Agrees p ls
no-conflict p ls h n e = of (rw e at h)
  where
    of : conflict p (some n) ≡ none → n ≡ bits p
    of k = elim (Bool-cases (n == bits p)) [
      | inl y ↦ (==_iff n (bits p)).0 y
      | inr y ↦ absurd (ground arith)
    ]

of_no-conflict :
    (p : Prefix) (ls : List (Addr × ℕ)) → Agrees p ls → conflict p (length_of p.addr ls) ≡ none
of_no-conflict p ls h = of (length_of p.addr ls) h
  where
    of : (o : Option ℕ) → ((n : ℕ) → o ≡ some n → n ≡ bits p) → conflict p o ≡ none
    of none h = refl
    of (some n) h = rw ((==_iff n (bits p)).1 (h n refl)) refl

length_of-cons :
    (q p : Prefix) (ls : List (Addr × ℕ))
    → (q.addr ≡ p.addr × (length_of q.addr ((p.addr, bits p) ∷ ls) ≡ some (bits p)))
      ⊎ (length_of q.addr ((p.addr, bits p) ∷ ls) ≡ length_of q.addr ls)
length_of-cons q p ls = elim (Bool-cases (addr_eq q.addr p.addr)) [
  | inl y ↦ inl ((addr_eq_iff q.addr p.addr).0 y, rw y refl)
  | inr y ↦ inr (rw y refl)
]

-- What a successful step of the loop says.
accepted_step :
    (p : Prefix) (v s : Bool) (o : Option PlanError) (r : Result PlanError (List Prefix))
    (qs : List Prefix)
    → (if not v
        then err (PlanError.invalid_prefix p)
        else unless_conflict o (put_unless_seen s p r))
      ≡ ok qs
    → (v ≡ true)
      × (o ≡ none)
      × ((rest : List Prefix) × (r ≡ ok rest) × (qs ≡ (if s then rest else p ∷ rest)))
accepted_step p false s o r qs h = absurd (ground arith)
accepted_step p true s (some e) r qs h = absurd (ground arith)
accepted_step p true true none (err e) qs h = absurd (ground arith)
accepted_step p true false none (err e) qs h = absurd (ground arith)
accepted_step p true true none (ok rest) qs h = (refl, refl, (rest, refl, sym (ok-injective h)))
accepted_step p true false none (ok rest) qs h = (refl, refl, (rest, refl, sym (ok-injective h)))

record Accepting (ls : List (Addr × ℕ)) (seen ps qs : List Prefix) : Type 0 where
  accepted : IsAccepted ps
  agrees : (p : Prefix) → Memᴰ p ps → Agrees p ls
  kept : (p : Prefix) → Memᴰ p qs → Memᴰ p ps
  found : (p : Prefix) → Memᴰ p ps → Memᴰ p seen ⊎ Memᴰ p qs

module _ (ls : List (Addr × ℕ)) (seen : List Prefix) (p : Prefix) (ps rest : List Prefix)
    (v : is_valid p ≡ true) (c : Agrees p ls) where
  Agrees-tail :
      ((q : Prefix) → Memᴰ q ps → Agrees q ((p.addr, bits p) ∷ ls))
      → (q : Prefix) → Memᴰ q ps
      → Agrees q ls × (q.addr ≡ p.addr → bits p ≡ bits q)
  Agrees-tail h q m = (
    (λ n e. elim (length_of-cons q p ls) [
      | inl (a, f) ↦ c n (subst (λ t. length_of t ls ≡ some n) a e) ∙ h q m (bits p) f
      | inr f ↦ h q m n (f ∙ e)
    ]),
    (λ a. elim (length_of-cons q p ls) [
      | inl (_, f) ↦ h q m (bits p) f
      | inr f ↦ h q m (bits p) (
          subst (λ t. length_of t ((p.addr, bits p) ∷ ls) ≡ some (bits p)) (sym a)
            (rw ((addr_eq_iff p.addr p.addr).1 refl) refl))
    ]),
  )

  IsAccepted-cons :
      IsAccepted ps
      → ((q : Prefix) → Memᴰ q ps → q.addr ≡ p.addr → bits p ≡ bits q)
      → IsAccepted (p ∷ ps)
  IsAccepted-cons a h = record {
    valid = λ q m. elim m [ Memᴰ.head e ↦ ap is_valid e ∙ v | Memᴰ.tail k ↦ a.valid q k ];
    agree = λ q r m k e. elim m [
      | Memᴰ.head x ↦ elim k [
        | Memᴰ.head y ↦ ap bits (x ∙ sym y)
        | Memᴰ.tail l ↦ ap bits x ∙ h r l (sym e ∙ ap (λ t. t.addr) x)
      ]
      | Memᴰ.tail j ↦ elim k [
        | Memᴰ.head y ↦ sym (ap bits y ∙ h q j (e ∙ ap (λ t. t.addr) y))
        | Memᴰ.tail l ↦ a.agree q r j l e
      ]
    ];
  }

  Agrees-cons :
      ((q : Prefix) → Memᴰ q ps → Agrees q ls) → (q : Prefix) → Memᴰ q (p ∷ ps) → Agrees q ls
  Agrees-cons h q (Memᴰ.head x) = subst (λ z. Agrees z ls) (sym x) c
  Agrees-cons h q (Memᴰ.tail k) = h q k

seen-mem : (p : Prefix) (seen : List Prefix) → is_among p seen ≡ true → Memᴰ p seen
seen-mem p seen h =
    let (q, m, e) = any_found (prefix_eq p) seen h in
    subst (λ t. Memᴰ t seen) (sym ((prefix_eq_iff p q).0 e)) m

normalize_set_from-Accepting :
    (ls : List (Addr × ℕ)) (seen ps qs : List Prefix)
    → normalize_set_from ls seen ps ≡ ok qs
    → Accepting ls seen ps qs
unfolding normalize_set_from
normalize_set_from-Accepting ls seen [] qs h = record {
  accepted = record { valid = λ p m. elim m [ ]; agree = λ p q m k e. elim m [ ] };
  agrees = λ p m. elim m [ ];
  kept = λ p m. subst (λ t. Memᴰ p t) (sym (ok-injective h)) m;
  found = λ p m. elim m [ ];
}
normalize_set_from-Accepting ls seen (p ∷ ps) qs h =
    let (v, o, d) = accepted_step p (is_valid p) (is_among p seen) _ _ qs h in
    let (rest, r, e) = d in
    let c = no-conflict p ls o in
    elim (Bool-cases (is_among p seen)) [
      | inl y ↦
          let ih = normalize_set_from-Accepting ((p.addr, bits p) ∷ ls) seen ps rest (
            subst
              (λ b.
                normalize_set_from ((p.addr, bits p) ∷ ls) (if b then seen else p ∷ seen) ps
                ≡ ok rest)
              y r) in
          let t = Agrees-tail ls seen p ps rest v c ih.agrees in
          let e' : qs ≡ rest = subst (λ b. qs ≡ (if b then rest else p ∷ rest)) y e in
          record {
            accepted = IsAccepted-cons ls seen p ps rest v c ih.accepted (λ q m. (t q m).1);
            agrees = Agrees-cons ls seen p ps rest v c (λ q m. (t q m).0);
            kept = λ q m. Memᴰ.tail (ih.kept q (subst (λ z. Memᴰ q z) e' m));
            found = λ q m. elim m [
              | Memᴰ.head x ↦ inl (subst (λ z. Memᴰ z seen) (sym x) (seen-mem p seen y))
              | Memᴰ.tail k ↦ elim (ih.found q k) [
                | inl l ↦ inl l
                | inr l ↦ inr (subst (λ z. Memᴰ q z) (sym e') l)
              ]
            ];
          }
      | inr y ↦
          let ih = normalize_set_from-Accepting ((p.addr, bits p) ∷ ls) (p ∷ seen) ps rest (
            subst
              (λ b.
                normalize_set_from ((p.addr, bits p) ∷ ls) (if b then seen else p ∷ seen) ps
                ≡ ok rest)
              y r) in
          let t = Agrees-tail ls seen p ps rest v c ih.agrees in
          let e' : qs ≡ p ∷ rest = subst (λ b. qs ≡ (if b then rest else p ∷ rest)) y e in
          record {
            accepted = IsAccepted-cons ls seen p ps rest v c ih.accepted (λ q m. (t q m).1);
            agrees = Agrees-cons ls seen p ps rest v c (λ q m. (t q m).0);
            kept = λ q m. elim (subst (λ z. Memᴰ q z) e' m) [
              | Memᴰ.head x ↦ Memᴰ.head x
              | Memᴰ.tail k ↦ Memᴰ.tail (ih.kept q k)
            ];
            found = λ q m. elim m [
              | Memᴰ.head x ↦ inr (subst (λ z. Memᴰ q z) (sym e') (Memᴰ.head x))
              | Memᴰ.tail k ↦ elim (ih.found q k) [
                | inl (Memᴰ.head x) ↦ inr (subst (λ z. Memᴰ q z) (sym e') (Memᴰ.head x))
                | inl (Memᴰ.tail l) ↦ inl l
                | inr l ↦ inr (subst (λ z. Memᴰ q z) (sym e') (Memᴰ.tail l))
              ]
            ];
          }
    ]

pub normalize-IsAccepted :
    (ps qs : List Prefix)
    → normalize_tun_addr_prefix_set ps ≡ ok qs
    → IsAccepted ps × HaveSameMembers ps qs
unfolding normalize_tun_addr_prefix_set
normalize-IsAccepted ps qs h =
    let a = normalize_set_from-Accepting [] [] ps qs h in
    (a.accepted, λ p. ((λ m. elim (a.found p m) [ inl k ↦ elim k [ ] | inr k ↦ k ]), a.kept p))

IsAccepted-again :
    (ls : List (Addr × ℕ)) (seen ps : List Prefix)
    → IsAccepted ps
    → ((p : Prefix) → Memᴰ p ps → Agrees p ls)
    → (qs : List Prefix) × (normalize_set_from ls seen ps ≡ ok qs)
unfolding normalize_set_from
IsAccepted-again ls seen [] a h = ([], refl)
IsAccepted-again ls seen (p ∷ ps) a h =
    let (rest, r) =
      IsAccepted-again ((p.addr, bits p) ∷ ls) (if is_among p seen then seen else p ∷ seen) ps
        (record {
          valid = λ q m. a.valid q (Memᴰ.tail m);
          agree = λ q r m k. a.agree q r (Memᴰ.tail m) (Memᴰ.tail k);
        })
        (λ q m n e. elim (length_of-cons q p ls) [
          | inl (x, f) ↦
              sym (some-injective n (sym f ∙ e))
              ∙ a.agree p q (Memᴰ.head refl) (Memᴰ.tail m) (sym x)
          | inr f ↦ h q (Memᴰ.tail m) n (sym f ∙ e)
        ]) in
    rw (a.valid p (Memᴰ.head refl), of_no-conflict p ls (h p (Memᴰ.head refl)), r)
      (put (is_among p seen) rest)
  where
    some-injective : (n : ℕ) → Path (Option ℕ) (some (bits p)) (some n) → bits p ≡ n
    some-injective n e = ap (λ o. elim o [ some t ↦ t | none ↦ n ]) e

    put :
        (s : Bool) (rest : List Prefix)
        → (qs : List Prefix) × (put_unless_seen s p (ok rest) ≡ ok qs)
    put true rest = (rest, refl)
    put false rest = (p ∷ rest, refl)

-- normalizeTunAddrPrefixSet succeeds exactly on the lists of valid prefixes in which no address has
-- two lengths, and whenever it succeeds its result has the same prefixes as the list.
pub normalize_tun_addr_prefix_set_iff :
    (ps : List Prefix)
    → (((qs : List Prefix) × (normalize_tun_addr_prefix_set ps ≡ ok qs)) ↔ IsAccepted ps)
      × ((qs : List Prefix) → normalize_tun_addr_prefix_set ps ≡ ok qs → HaveSameMembers ps qs)
unfolding normalize_tun_addr_prefix_set
normalize_tun_addr_prefix_set_iff ps = (
  (
    λ h. (normalize-IsAccepted ps h.0 h.1).0,
    λ a. IsAccepted-again [] [] ps a (λ p m n x. absurd (ground arith)),
  ),
  λ qs e. (normalize-IsAccepted ps qs e).1,
)
