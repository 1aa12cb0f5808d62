-- ===== src/Tun/Address/Verified.antt =====
-- setTunAddrPrefixes and addTunAddrPrefix of tun/address_linux.go: what success says.
use mathlib.Core.List.{Memᴰ}
use sysnet_linux.Base.{
  ◌≡◌, refl, sym, ap, ◌∙◌, inl, inr, true, false, List, [], ◌∷◌, Option, none, some, Result, ok,
  err, Bool-cases, arith, subst,
}
use sysnet_linux.Net.Addr.{is6}
use sysnet_linux.Net.Prefix.{Prefix, is_valid}
use sysnet_linux.Tun.Prefixes.{NetlinkAddr}
use sysnet_linux.Tun.Address.{
  TunAddrNetlink, AddressError, PlanError, Change, is_unusable, has_nodad,
  normalize_tun_addr_prefix_set,
}
use sysnet_linux.Tun.Address.Apply.{
  last_of, first_failure, verified, verify_listed, verify_result, verify_tun_addr_prefixes,
  then_verify, apply_planned, apply_tun_addr_changes, reconcile, set_normalized,
  set_tun_addr_prefixes, add_tun_addr_prefix,
}
use sysnet_linux.Tun.Address.Normalized.{normalize-IsAccepted}

-- Listed last as a usable address.
abbrev pub IsUsable : List NetlinkAddr → Prefix → Type 0
IsUsable current p =
    (a : NetlinkAddr) × (last_of p current ≡ some a)
    × (is6 p.addr ≡ true → (has_nodad a ≡ true) × (is_unusable a ≡ false))

module _ (n : TunAddrNetlink) where
  open n use {State, Failure}

  -- The last thing that was done was to list the addresses, and these are usable.
  abbrev pub EndsVerified : List Prefix → State → Type 0
  EndsVerified ps t =
      (s : State) × (current : List NetlinkAddr) × (n.list s ≡ (ok current, t))
      × ((p : Prefix) → Memᴰ p ps → IsUsable current p)

  verified-IsUsable :
      (p : Prefix) (current : List NetlinkAddr)
      → verified n p (last_of p current) ≡ none
      → IsUsable current p
  verified-IsUsable p current h = of (last_of p current) refl h
    where
      usable :
          (a : NetlinkAddr)
          → verified n p (some a) ≡ none
          → is6 p.addr ≡ true
          → (has_nodad a ≡ true) × (is_unusable a ≡ false)
      usable a k y = elim (Bool-cases (has_nodad a)) [
        | inr d ↦ absurd (some-none (rw (y, d) at k))
        | inl d ↦ elim (Bool-cases (is_unusable a)) [
          | inl u ↦ absurd (some-none (rw (y, d, u) at k))
          | inr u ↦ (d, u)
        ]
      ]
        where
          some-none :
              {e : AddressError Failure} → Path (Option (AddressError Failure)) (some e) none → ⊥
          some-none q = absurd (ground arith)

      of :
          (o : Option NetlinkAddr)
          → last_of p current ≡ o
          → verified n p o ≡ none
          → IsUsable current p
      of none e k = absurd (ground arith)
      of (some a) e k = (a, e, usable a k)

  verify_listed-IsUsable :
      (current : List NetlinkAddr) (ps : List Prefix)
      → verify_listed n current ps ≡ none
      → (p : Prefix) → Memᴰ p ps
      → IsUsable current p
  unfolding verify_listed
  verify_listed-IsUsable current [] h p m = elim m [ ]
  verify_listed-IsUsable current (q ∷ qs) h p m =
      of (verified n q (last_of q current)) refl h m (verify_listed-IsUsable current qs)
    where
      of :
          (o : Option (AddressError Failure))
          → verified n q (last_of q current) ≡ o
          → first_failure n o (verify_listed n current qs) ≡ none
          → Memᴰ p (q ∷ qs)
          → (verify_listed n current qs ≡ none → (r : Prefix) → Memᴰ r qs → IsUsable current r)
          → IsUsable current p
      of (some e) f k l ih = absurd (ground arith)
      of none f k (Memᴰ.head x) ih =
          subst (IsUsable current) (sym x) (verified-IsUsable q current f)
      of none f k (Memᴰ.tail l) ih = ih k p l

  verify-EndsVerified :
      (ps : List Prefix) (s t : State)
      → verify_tun_addr_prefixes n ps s ≡ (none, t)
      → EndsVerified ps t
  unfolding verify_tun_addr_prefixes
  verify-EndsVerified ps s t h = of (n.list s) refl h
    where
      of :
          (r : Result Failure (List NetlinkAddr) × State)
          → n.list s ≡ r
          → verify_result n ps r ≡ (none, t)
          → EndsVerified ps t
      of (err e, u) f k = absurd (ground (arith, ap (λ x. x.0) k))
      of (ok current, u) f k = (
        s,
        current,
        f ∙ ap (λ x. (ok current, x)) (ap (λ x. x.1) k),
        verify_listed-IsUsable current ps (ap (λ x. x.0) k),
      )

  reconcile-EndsVerified :
      (ps : List Prefix) (plan : List NetlinkAddr → Result PlanError (List Change))
      (r : Result Failure (List NetlinkAddr) × State) (t : State)
      → reconcile n ps plan r ≡ (none, t)
      → EndsVerified ps t
  reconcile-EndsVerified ps plan (err e, s) t h = absurd (ground (arith, ap (λ x. x.0) h))
  reconcile-EndsVerified ps plan (ok current, s) t h = planned (plan current) h
    where
      applied :
          (r : Option (AddressError Failure) × State)
          → then_verify n ps r ≡ (none, t)
          → EndsVerified ps t
      applied (some e, u) k = absurd (ground (arith, ap (λ x. x.0) k))
      applied (none, u) k = verify-EndsVerified ps u t k

      planned :
          (r : Result PlanError (List Change))
          → apply_planned n ps s r ≡ (none, t)
          → EndsVerified ps t
      planned (err e) k = absurd (ground (arith, ap (λ x. x.0) k))
      planned (ok cs) k = applied (apply_tun_addr_changes n cs s) k

  -- When setTunAddrPrefixes, or addTunAddrPrefix for one prefix, returns no error, then the last
  -- thing it did was to list the addresses, and each wanted prefix was listed, an IPv6 one with
  -- NODAD and neither tentative nor failed.
  pub operations-EndsVerified :
      (s t : State)
      → ((ps : List Prefix) → set_tun_addr_prefixes n ps s ≡ (none, t) → EndsVerified ps t)
        × ((p : Prefix) → add_tun_addr_prefix n p s ≡ (none, t) → EndsVerified (p ∷ []) t)
  unfolding set_tun_addr_prefixes add_tun_addr_prefix
  operations-EndsVerified s t = (
    λ ps. set ps (normalize_tun_addr_prefix_set ps) refl,
    λ p h. elim (Bool-cases (is_valid p)) [
      | inr v ↦ absurd (ground (arith, ap (λ x. x.0) h, v))
      | inl v ↦ reconcile-EndsVerified (p ∷ []) _ (n.list s) t (rw v at h)
    ],
  )
    where
      set :
          (ps : List Prefix) (r : Result PlanError (List Prefix))
          → normalize_tun_addr_prefix_set ps ≡ r
          → set_normalized n r s ≡ (none, t)
          → EndsVerified ps t
      set ps (err e) f h = absurd (ground (arith, ap (λ x. x.0) h))
      set ps (ok qs) f h =
          let (u, current, l, k) = reconcile-EndsVerified qs _ (n.list s) t h in
          (u, current, l, λ p m. k p (((normalize-IsAccepted ps qs f).1 p).0 m))
