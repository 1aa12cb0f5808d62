-- ===== src/System/Sources.antt =====
-- What normalizeTunSourceRoutes of sysnet.go lets through.
use sysnet_linux.Base.{
  ℕ, suc, ◌≡◌, refl, sym, subst, ◌∙◌, inl, inr, ◌⊎◌, Option, Bool, true, false, not, ◌||◌, List, [],
  ◌∷◌, none, some, ok, err, ok-injective, any, All, arith, Bool-cases, if◌then◌else◌,
}
use sysnet_linux.Net.Addr.{Addr, is4, is4in6, addr_eq}
use sysnet_linux.Net.Prefix.{Prefix, masked}
use sysnet_linux.Net.Prefix
use sysnet_linux.Net.Prefix.Masked.{masked_again, masked-plain, masked-is4, masked-is_valid}
use sysnet_linux.Routing.Model.{SourceRoute}
use sysnet_linux.Routing.Config.{seen_source, valid_preferred_source}
use sysnet_linux.Routing.Config.Sources.{HasDistinctDestinations, IsUnseen, IsUnseen-cons}
use sysnet_linux.System.Options.{
  OptionError, ResultOf, keep_new, normalize_from, masked_route, valid_tun_source_route_addr,
}

-- A source route that is normal for a TUN with some addresses.
pub record IsNormal (assigned : List Addr) (r : SourceRoute) : Type 0 where
  pub destination_valid : Prefix.is_valid r.destination ≡ true
  pub destination_plain : is4in6 r.destination.addr ≡ false
  pub destination_masked : r.destination ≡ masked r.destination
  pub source_valid : valid_preferred_source r.source ≡ true
  pub same_family : is4 r.destination.addr ≡ is4 r.source
  pub source_assigned : any (addr_eq r.source) assigned ≡ true

-- The two tests are the same.
source_tests_agree : (a : Addr) → valid_tun_source_route_addr a ≡ valid_preferred_source a
unfolding valid_tun_source_route_addr valid_preferred_source
source_tests_agree a = refl

same_families : (a b : Bool) → (if a then not b else b) ≡ false → a ≡ b
same_families a b h = ground arith

pub conflict : {A : Type 0} {e : OptionError} {out : A} → Path (ResultOf A) (err e) (ok out) → ⊥
conflict h = ground arith

keep_new_cases :
    (r : SourceRoute) (o : Option Addr) (skipped kept : ResultOf (List SourceRoute))
    (out : List SourceRoute)
    → keep_new r o skipped kept ≡ ok out
    → ((o ≡ none) × (rest : List SourceRoute) × (kept ≡ ok rest) × (out ≡ r ∷ rest))
      ⊎ (skipped ≡ ok out)
keep_new_cases r none skipped (err e) out h = absurd (conflict h)
keep_new_cases r none skipped (ok rest) out h = inl (refl, rest, refl, sym (ok-injective h))
keep_new_cases r (some source) skipped kept out h = elim (Bool-cases (addr_eq source r.source)) [
  | inl e ↦ inr (rw e at h)
  | inr e ↦ absurd (conflict (rw e at h))
]

module _ (assigned : List Addr) where
  masked_route-IsNormal :
      (r : SourceRoute)
      → (not (Prefix.is_valid r.destination) || is4in6 r.destination.addr) ≡ false
      → not (valid_tun_source_route_addr r.source) ≡ false
      → (if is4 r.destination.addr then not (is4 r.source) else is4 r.source) ≡ false
      → not (any (addr_eq r.source) assigned) ≡ false
      → IsNormal assigned (masked_route r)
  masked_route-IsNormal r v s f a = record {
    destination_valid = masked-is_valid r.destination (ground arith);
    destination_plain = masked-plain r.destination (ground arith);
    destination_masked = sym (masked_again r.destination);
    source_valid = sym (source_tests_agree r.source) ∙ ground arith;
    same_family =
        masked-is4 r.destination (ground arith)
        ∙ same_families (is4 r.destination.addr) (is4 r.source) f;
    source_assigned = ground arith;
  }

  abbrev pub Normalized : List SourceRoute → List SourceRoute → Type 0
  Normalized seen out =
      All (IsNormal assigned) out × HasDistinctDestinations out × IsUnseen seen out

  continued :
      (i : ℕ) (seen : List SourceRoute) (r : SourceRoute) (rs out : List SourceRoute)
      → keep_new
          (masked_route r)
          (seen_source (masked r.destination) seen)
          (normalize_from assigned (suc i) seen rs)
          (normalize_from assigned (suc i) (masked_route r ∷ seen) rs)
        ≡ ok out
      → IsNormal assigned (masked_route r)
      → ((o : List SourceRoute)
          → normalize_from assigned (suc i) seen rs ≡ ok o
          → Normalized seen o)
      → ((o : List SourceRoute)
          → normalize_from assigned (suc i) (masked_route r ∷ seen) rs ≡ ok o
          → Normalized (masked_route r ∷ seen) o)
      → Normalized seen out
  continued i seen r rs out h n skip keep =
      elim (keep_new_cases (masked_route r) (seen_source (masked r.destination) seen) _ _ out h) [
        | inr e ↦ skip out e
        | inl (fresh, rest, e, q) ↦
            let (l, d, u) = keep rest e in
            let (apart, unseen) = IsUnseen-cons (masked_route r) seen rest u in
            subst (Normalized seen) (sym q) ((n, l), (apart, d), (fresh, unseen))
      ]

  pub normalize_from-Normalized :
      (i : ℕ) (seen rs out : List SourceRoute)
      → normalize_from assigned i seen rs ≡ ok out
      → Normalized seen out
  unfolding normalize_from
  normalize_from-Normalized i seen [] out h = subst (Normalized seen) (ok-injective h) (tt, tt, tt)
  normalize_from-Normalized i seen (r ∷ rs) out h =
      elim (Bool-cases (not (Prefix.is_valid r.destination) || is4in6 r.destination.addr)) [
        | inl v ↦ absurd (conflict (rw v at h))
        | inr v ↦ elim (Bool-cases (not (valid_tun_source_route_addr r.source))) [
          | inl s ↦ absurd (conflict (rw (v, s) at h))
          | inr s ↦
              elim (Bool-cases
                (if is4 r.destination.addr then not (is4 r.source) else is4 r.source)) [
                  | inl f ↦ absurd (conflict (rw (v, s, f) at h))
                  | inr f ↦ elim (Bool-cases (not (any (addr_eq r.source) assigned))) [
                    | inl a ↦ absurd (conflict (rw (v, s, f, a) at h))
                    | inr a ↦
                        continued i seen r rs out (rw (v, s, f, a) at h)
                          (masked_route-IsNormal r v s f a)
                          (normalize_from-Normalized (suc i) seen rs)
                          (normalize_from-Normalized (suc i) (masked_route r ∷ seen) rs)
                  ]
                ]
        ]
      ]
