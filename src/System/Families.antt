-- ===== src/System/Families.antt =====
-- The families that the addresses and routes of a TUN give to its routing configuration.
use Prim.Native.String.{String}
use sysnet_linux.Base.{
  ◌≡◌, refl, sym, ap, subst, ◌∙◌, inl, inr, ◌⊎◌, Bool, true, false, not, ◌&&◌, List, [], ◌∷◌, ◌++◌,
  some, ok, ok-injective, any, arith, Bool-cases, Option-cases, Result-cases, if◌then◌else◌,
}
use sysnet_linux.Net.Addr.{Addr, is_valid, is4, is6, addr_eq, addr_eq_iff}
use sysnet_linux.Net.Prefix.{Prefix}
use sysnet_linux.Routing.Config.{
  Config, FamilySet, both_families, family_enabled, source_family, effective_tunnel_families,
}
use sysnet_linux.System.Options.{PrefixText, assigned_addrs, families_of, or_both, add_family}
use sysnet_linux.System.Sources.{conflict}

module _ (x : PrefixText) where
  -- Whether an address has its family in a set.
  abbrev pub Covered : Addr → FamilySet → Type 0
  Covered a f = (is4 a ≡ true → f.ipv4 ≡ true) × (is6 a ≡ true → f.ipv6 ≡ true)

  add_family-Covered : (p : Prefix) (f : FamilySet) → Covered p.addr (add_family x (some p) f)
  add_family-Covered p f = go p.addr f
    where
      go :
          (a : Addr) (f : FamilySet)
          → Covered a (
              if is4 a
              then record f { ipv4 = true }
              else (if is6 a then record f { ipv6 = true } else f))
      go Addr.invalid f = (λ h. absurd (ground arith), λ h. absurd (ground arith))
      go (Addr.v4 n) f = (λ h. refl, λ h. absurd (ground arith))
      go (Addr.v6 n z) f = (λ h. absurd (ground arith), λ h. refl)

  Covered-add_family :
      (a : Addr) (p : Prefix) (f : FamilySet) → Covered a f → Covered a (add_family x (some p) f)
  Covered-add_family a p f h = ground arith

  -- An assigned address puts its family into the set.
  pub assigned-Covered :
      (a : Addr) (addrs routes : List String) (assigned : List Addr)
      → assigned_addrs x addrs ≡ ok assigned
      → any (addr_eq a) assigned ≡ true
      → Covered a (families_of x (addrs ++ routes))
  unfolding assigned_addrs families_of
  assigned-Covered a [] routes assigned e m =
      absurd (nothing (ap (any (addr_eq a)) (ok-injective e) ∙ m))
    where
      nothing : false ≡ true → ⊥
      nothing h = ground arith
  assigned-Covered a (t ∷ ts) routes assigned e m = elim (Option-cases (x.parse_prefix t)) [
    | inl q ↦ absurd (ground arith)
    | inr (p, q) ↦ elim (Result-cases (assigned_addrs x ts)) [
      | inr (w, r) ↦ absurd (conflict (rw (q, r, assigned_addrs) at e))
      | inl (rest, r) ↦
          let m' = ap (any (addr_eq a)) (ok-injective (rw (q, r, assigned_addrs) at e)) ∙ m in
          rw (q, families_of)
            (elim (Bool-cases (addr_eq a p.addr)) [
              | inl same ↦
                  subst (λ b. Covered b (add_family x (some p) (families_of x (ts ++ routes))))
                    (sym ((addr_eq_iff a p.addr).0 same))
                    (add_family-Covered p (families_of x (ts ++ routes)))
              | inr other ↦
                  Covered-add_family a p (families_of x (ts ++ routes))
                    (assigned-Covered a ts routes rest r (rw other at m'))
            ])
    ]
  ]

  pub enabled :
      (a : Addr) (f : FamilySet)
      → is_valid a ≡ true
      → Covered a f
      → family_enabled (or_both x f) (source_family a) ≡ true
  unfolding family_enabled
  enabled Addr.invalid f v h = absurd (ground arith)
  enabled (Addr.v4 n) f v h = rw (h.0 refl) (ground arith)
  enabled (Addr.v6 n z) f v h = rw (h.1 refl) (ground arith)

  -- The families of a configuration with a policy cover those of its tunnel.
  pub effective_or_both :
      (c : Config) (f : FamilySet)
      → c.tunnel_families ≡ or_both x f
      → effective_tunnel_families c ≡ or_both x f
  unfolding effective_tunnel_families
  effective_or_both c f e =
      rw e (elim (Bool-cases (not f.ipv4 && not f.ipv6)) [
        | inl b ↦ rw b refl
        | inr b ↦ rw (b, b) refl
      ])

  pub or_both_some : (f : FamilySet) → ((or_both x f).ipv4 ≡ true) ⊎ ((or_both x f).ipv6 ≡ true)
  or_both_some f = elim (Bool-cases f.ipv4) [
    | inl a ↦ rw a (inl refl)
    | inr a ↦ elim (Bool-cases f.ipv6) [
      | inl b ↦ rw (a, b) (inr refl)
      | inr b ↦ rw (a, b) (inl refl)
    ]
  ]

  pub covering :
      (strictly : Bool) (f : FamilySet)
      → (f.ipv4 ≡ true) ⊎ (f.ipv6 ≡ true)
      → (((if strictly then both_families else f).ipv4 ≡ true)
          ⊎ ((if strictly then both_families else f).ipv6 ≡ true))
        × (f.ipv4 ≡ true → (if strictly then both_families else f).ipv4 ≡ true)
        × (f.ipv6 ≡ true → (if strictly then both_families else f).ipv6 ≡ true)
  covering true f h = (inl refl, λ a. refl, λ a. refl)
  covering false f h = (h, λ a. a, λ a. a)
