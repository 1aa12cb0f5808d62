-- ===== src/Killswitch/Rules/Merged.antt =====
-- What the merged policy grants: what some ruleset grants, and nothing else.
use Prim.Native.String.{String}
use Prim.Native.String.{compare as text_compare}
use text.Mathlib.Text.{◌==◌ as str_eq}
use text.Mathlib.TextEquality.{eq_iff}
use mathlib.Core.List.{Memᴰ}
use sysnet_linux.Base.{
  ◌≡◌, refl, ◌⊎◌, ◌↔◌, inl, inr, Bool, true, false, List, [], ◌∷◌, ◌++◌, arith, mem-append_left,
  mem-append_right, mem-append_cases, Bool-cases, ◌||◌, ap,
}
use sysnet_linux.Base.Sort.{sort, mem-sort, mem-sort_of}
use sysnet_linux.Base.Unseen.{mem-unseen, mem-unseen_of}
use sysnet_linux.Killswitch.Rules.{
  AllowRules, Entry, no_rules, unique_sorted_strings, merge_allow_rules, normalize_allow_rules,
  merge_entries, by_id, merged_policy,
}

-- The lists of a ruleset.
pub data Kind : Type 0 where
  mark port v4_host v6_host v4_pair v6_pair : Kind

abbrev pub entries : Kind → AllowRules → List String
entries mark r = r.allowed_marks
entries port r = r.allowed_ports
entries v4_host r = r.allowed_v4_hosts
entries v6_host r = r.allowed_v6_hosts
entries v4_pair r = r.allowed_v4_pairs
entries v6_pair r = r.allowed_v6_pairs

-- Some ruleset has the entry.
abbrev pub IsGranted : Kind → String → List Entry → Type 0
IsGranted k x rulesets = (e : Entry) × Memᴰ e rulesets × Memᴰ x (entries k e.rules)

entries-merge :
    (k : Kind) (a b : AllowRules) → entries k (merge_allow_rules a b) ≡ entries k a ++ entries k b
unfolding merge_allow_rules
entries-merge mark a b = refl
entries-merge port a b = refl
entries-merge v4_host a b = refl
entries-merge v6_host a b = refl
entries-merge v4_pair a b = refl
entries-merge v6_pair a b = refl

entries-normalize :
    (k : Kind) (a : AllowRules)
    → entries k (normalize_allow_rules a) ≡ unique_sorted_strings (entries k a)
unfolding normalize_allow_rules
entries-normalize mark a = refl
entries-normalize port a = refl
entries-normalize v4_host a = refl
entries-normalize v6_host a = refl
entries-normalize v4_pair a = refl
entries-normalize v6_pair a = refl

nothing_granted : (k : Kind) (x : String) → Memᴰ x (entries k no_rules) → ⊥
nothing_granted mark x m = elim m [ ]
nothing_granted port x m = elim m [ ]
nothing_granted v4_host x m = elim m [ ]
nothing_granted v6_host x m = elim m [ ]
nothing_granted v4_pair x m = elim m [ ]
nothing_granted v6_pair x m = elim m [ ]

-- Duplicates are dropped and nothing else is: the same strings come out, in order.
pub unique_sorted_strings-mem :
    (x : String) (values : List String) → Memᴰ x (unique_sorted_strings values) ↔ Memᴰ x values
unfolding unique_sorted_strings
unique_sorted_strings-mem x values = (
  λ m. mem-unseen str_eq x [] values (mem-sort text_compare _ m),
  λ m.
      mem-sort_of text_compare _
        (elim (mem-unseen_of str_eq (λ a b. (eq_iff a b).0) x [] values m) [
          | inl n ↦ elim n [ ]
          | inr k ↦ k
        ]),
)

merge_entries-mem :
    (k : Kind) (x : String) (policy : AllowRules) (es : List Entry)
    → Memᴰ x (entries k (merge_entries policy es))
    → Memᴰ x (entries k policy) ⊎ IsGranted k x es
unfolding merge_entries
merge_entries-mem k x policy [] m = inl m
merge_entries-mem k x policy (e ∷ es) m =
    elim (merge_entries-mem k x (merge_allow_rules policy e.rules) es m) [
      | inr (f, l, g) ↦ inr (f, Memᴰ.tail l, g)
      | inl h ↦
          elim (mem-append_cases (entries k policy) (rw (entries-merge k policy e.rules) at h)) [
            | inl a ↦ inl a
            | inr b ↦ inr (e, Memᴰ.head refl, b)
          ]
    ]

merge_entries-mem_of :
    (k : Kind) (x : String) (policy : AllowRules) (es : List Entry)
    → Memᴰ x (entries k policy) ⊎ IsGranted k x es
    → Memᴰ x (entries k (merge_entries policy es))
unfolding merge_entries
merge_entries-mem_of k x policy [] (inl m) = m
merge_entries-mem_of k x policy [] (inr (f, l, g)) = elim l [ ]
merge_entries-mem_of k x policy (e ∷ es) (inl m) =
    merge_entries-mem_of k x (merge_allow_rules policy e.rules) es
      (inl (rw (entries-merge k policy e.rules) (mem-append_left (entries k e.rules) m)))
merge_entries-mem_of k x policy (e ∷ es) (inr (f, Memᴰ.head p, g)) =
    merge_entries-mem_of k x (merge_allow_rules policy e.rules) es
      (inl (rw (entries-merge k policy e.rules) (mem-append_right (entries k policy) (rw p at g))))
merge_entries-mem_of k x policy (e ∷ es) (inr (f, Memᴰ.tail l, g)) =
    merge_entries-mem_of k x (merge_allow_rules policy e.rules) es (inr (f, l, g))

-- An entry of a kind is in the merged policy exactly when some ruleset has it, whatever the ids.
pub merged_policy-mem :
    (k : Kind) (x : String) (rulesets : List Entry)
    → Memᴰ x (entries k (merged_policy rulesets)) ↔ IsGranted k x rulesets
unfolding merged_policy
merged_policy-mem k x rulesets = (from, to)
  where
    merged : AllowRules
    merged = merge_entries no_rules (sort by_id rulesets)

    from : Memᴰ x (entries k (normalize_allow_rules merged)) → IsGranted k x rulesets
    from m =
        elim (merge_entries-mem k x no_rules (sort by_id rulesets) (
          (unique_sorted_strings-mem x (entries k merged)).0
            (rw (entries-normalize k merged) at m))) [
              | inl n ↦ absurd (nothing_granted k x n)
              | inr (e, l, g) ↦ (e, mem-sort by_id _ l, g)
            ]

    to : IsGranted k x rulesets → Memᴰ x (entries k (normalize_allow_rules merged))
    to (e, l, g) = rw (entries-normalize k merged) (
        (unique_sorted_strings-mem x (entries k merged)).1 (
          merge_entries-mem_of k x no_rules (sort by_id rulesets)
            (inr (e, mem-sort_of by_id _ l, g))))

-- The flags of a ruleset.
pub data Flag : Type 0 where
  allow_all enable_v4 enable_v6 : Flag

abbrev pub has_flag : Flag → AllowRules → Bool
has_flag Flag.allow_all r = r.allow_all
has_flag Flag.enable_v4 r = r.enable_v4
has_flag Flag.enable_v6 r = r.enable_v6

has_flag-merge :
    (f : Flag) (a b : AllowRules)
    → has_flag f (merge_allow_rules a b) ≡ (has_flag f a || has_flag f b)
unfolding merge_allow_rules
has_flag-merge Flag.allow_all a b = refl
has_flag-merge Flag.enable_v4 a b = refl
has_flag-merge Flag.enable_v6 a b = refl

has_flag-normalize :
    (f : Flag) (a : AllowRules) → has_flag f (normalize_allow_rules a) ≡ has_flag f a
unfolding normalize_allow_rules
has_flag-normalize Flag.allow_all a = refl
has_flag-normalize Flag.enable_v4 a = refl
has_flag-normalize Flag.enable_v6 a = refl

no_flag : (f : Flag) → has_flag f no_rules ≡ false
no_flag Flag.allow_all = refl
no_flag Flag.enable_v4 = refl
no_flag Flag.enable_v6 = refl

abbrev pub IsFlagged : Flag → List Entry → Type 0
IsFlagged f rulesets = (e : Entry) × Memᴰ e rulesets × (has_flag f e.rules ≡ true)

merge_entries-flag :
    (f : Flag) (policy : AllowRules) (es : List Entry)
    → has_flag f (merge_entries policy es) ≡ true
    → (has_flag f policy ≡ true) ⊎ IsFlagged f es
unfolding merge_entries
merge_entries-flag f policy [] h = inl h
merge_entries-flag f policy (e ∷ es) h =
    elim (merge_entries-flag f (merge_allow_rules policy e.rules) es h) [
      | inr (d, l, g) ↦ inr (d, Memᴰ.tail l, g)
      | inl m ↦ elim (Bool-cases (has_flag f policy)) [
        | inl t ↦ inl t
        | inr n ↦ inr (e, Memᴰ.head refl, ground (arith, has_flag-merge f policy e.rules))
      ]
    ]

merge_entries-flag_of :
    (f : Flag) (policy : AllowRules) (es : List Entry)
    → (has_flag f policy ≡ true) ⊎ IsFlagged f es
    → has_flag f (merge_entries policy es) ≡ true
unfolding merge_entries
merge_entries-flag_of f policy [] (inl h) = h
merge_entries-flag_of f policy [] (inr (d, l, g)) = elim l [ ]
merge_entries-flag_of f policy (e ∷ es) (inl h) =
    merge_entries-flag_of f (merge_allow_rules policy e.rules) es
      (inl (ground (arith, has_flag-merge f policy e.rules)))
merge_entries-flag_of f policy (e ∷ es) (inr (d, Memᴰ.head p, g)) =
    merge_entries-flag_of f (merge_allow_rules policy e.rules) es
      (inl (ground (arith, has_flag-merge f policy e.rules, ap (λ x. has_flag f x.rules) p)))
merge_entries-flag_of f policy (e ∷ es) (inr (d, Memᴰ.tail l, g)) =
    merge_entries-flag_of f (merge_allow_rules policy e.rules) es (inr (d, l, g))

-- A flag is set in the merged policy exactly when some ruleset sets it.
merged_policy-flag :
    (f : Flag) (rulesets : List Entry)
    → (has_flag f (merged_policy rulesets) ≡ true) ↔ IsFlagged f rulesets
unfolding merged_policy
merged_policy-flag f rulesets = (from, to)
  where
    merged : AllowRules
    merged = merge_entries no_rules (sort by_id rulesets)

    from : has_flag f (normalize_allow_rules merged) ≡ true → IsFlagged f rulesets
    from h =
        elim (merge_entries-flag f no_rules (sort by_id rulesets)
          (rw (has_flag-normalize f merged) at h)) [
            | inl n ↦ absurd (ground (arith, no_flag f))
            | inr (e, l, g) ↦ (e, mem-sort by_id _ l, g)
          ]

    to : IsFlagged f rulesets → has_flag f (normalize_allow_rules merged) ≡ true
    to (e, l, g) =
        rw (has_flag-normalize f merged) (
          merge_entries-flag_of f no_rules (sort by_id rulesets)
            (inr (e, mem-sort_of by_id _ l, g)))
