-- ===== src/Routing/Config/Sources.antt =====
-- What validation requires of the source routes: each is well formed for the families that the TUN
-- carries, and no destination stands twice.
use sysnet_linux.Base.{ℕ, suc, ◌≡◌, refl, ◌≢◌, ◌↔◌, true, false, List, [], ◌∷◌, none, arith, All}
use sysnet_linux.Net.Addr.{is4, is4in6}
use sysnet_linux.Net.Prefix.{Prefix, prefix_eq, prefix_eq_iff, masked}
use sysnet_linux.Net.Prefix
use sysnet_linux.Routing.Model.{SourceRoute}
use sysnet_linux.Routing.Config.{
  FamilySet, valid_preferred_source, family_enabled, source_family, seen_source,
  validate_source_routes,
}

pub record IsValidSource (tunnel : FamilySet) (r : SourceRoute) : Type 0 where
  pub destination_valid : Prefix.is_valid r.destination ≡ true
  pub destination_plain : is4in6 r.destination.addr ≡ false
  pub destination_masked : r.destination ≡ masked r.destination
  pub source_valid : valid_preferred_source r.source ≡ true
  pub same_family : is4 r.destination.addr ≡ is4 r.source
  pub carried : family_enabled tunnel (source_family r.source) ≡ true

abbrev pub HasDistinctDestinations : List SourceRoute → Type 0
HasDistinctDestinations [] = Unit
HasDistinctDestinations (r ∷ rs) =
    All (λ s. r.destination ≢ s.destination) rs × HasDistinctDestinations rs

abbrev pub IsUnseen : List SourceRoute → List SourceRoute → Type 0
IsUnseen seen = All (λ r. seen_source r.destination seen ≡ none)

pub IsUnseen-cons :
    (r : SourceRoute) (seen rs : List SourceRoute)
    → IsUnseen (r ∷ seen) rs
    → All (λ s. r.destination ≢ s.destination) rs × IsUnseen seen rs
unfolding seen_source
IsUnseen-cons r seen [] u = (tt, tt)
IsUnseen-cons r seen (s ∷ rs) u =
    ground (arith, prefix_eq_iff r.destination s.destination, IsUnseen-cons r seen rs)

cons-IsUnseen :
    (r : SourceRoute) (seen rs : List SourceRoute)
    → All (λ s. r.destination ≢ s.destination) rs
    → IsUnseen seen rs
    → IsUnseen (r ∷ seen) rs
unfolding seen_source
cons-IsUnseen r seen [] d u = tt
cons-IsUnseen r seen (s ∷ rs) d u =
    ground (arith, prefix_eq_iff r.destination s.destination, cons-IsUnseen r seen rs)

validate_source_routes_sound :
    (tunnel : FamilySet) (i : ℕ) (seen rs : List SourceRoute)
    → validate_source_routes tunnel i seen rs ≡ none
    → All (IsValidSource tunnel) rs × HasDistinctDestinations rs × IsUnseen seen rs
unfolding validate_source_routes
validate_source_routes_sound tunnel i seen [] h = (tt, tt, tt)
validate_source_routes_sound tunnel i seen (r ∷ rs) h = ground (
  arith,
  prefix_eq_iff r.destination (masked r.destination),
  validate_source_routes_sound tunnel (suc i) (r ∷ seen) rs,
  IsUnseen-cons r seen rs,
)

validate_source_routes_complete :
    (tunnel : FamilySet) (i : ℕ) (seen rs : List SourceRoute)
    → All (IsValidSource tunnel) rs
    → HasDistinctDestinations rs
    → IsUnseen seen rs
    → validate_source_routes tunnel i seen rs ≡ none
unfolding validate_source_routes
validate_source_routes_complete tunnel i seen [] v d u = refl
validate_source_routes_complete tunnel i seen (r ∷ rs) v d u = ground (
  arith,
  (prefix_eq_iff r.destination (masked r.destination)).1 v.0.destination_masked,
  validate_source_routes_complete tunnel (suc i) (r ∷ seen) rs v.1 d.1
      (cons-IsUnseen r seen rs d.0 u.1),
)

nothing_seen : (rs : List SourceRoute) → IsUnseen [] rs
unfolding seen_source
nothing_seen [] = tt
nothing_seen (r ∷ rs) = (refl, nothing_seen rs)

pub source_routes_valid :
    (tunnel : FamilySet) (rs : List SourceRoute)
    → (validate_source_routes tunnel 0 [] rs ≡ none)
      ↔ (All (IsValidSource tunnel) rs × HasDistinctDestinations rs)
source_routes_valid tunnel rs = (
  λ h. let v = validate_source_routes_sound tunnel 0 [] rs h in (v.0, v.1),
  λ v. validate_source_routes_complete tunnel 0 [] rs v.0 v.1 (nothing_seen rs),
)
