-- ===== src/Killswitch/Client/Ids.antt =====
-- The ids of rulesets, that each in use was given out, and the ruleset that an id names after put and
-- delete of killswitch/client.go; and the delays of its attempts to connect.
use sysnet_linux.Base.{
  ℕ, ◌+◌, ◌-◌, ◌^◌, ◌≤◌, ◌<◌, ◌==◌, ◌≡◌, refl, ◌≢◌, inl, inr, false, List, [], ◌∷◌, none, some, ok,
  arith, All, if◌then◌else◌, Option-cases, Bool-cases, ltb, suc, zero,
}
use sysnet_linux.Killswitch.Rules.{AllowRules, Entry}
use sysnet_linux.Killswitch.Client.{
  Client, find, put, delete, create_tmp_ruleset, update_tmp_ruleset, delete_tmp_ruleset,
  changed_locked, next_delay,
}

-- Every id in use was given out.
abbrev pub HasGivenIds : Client → Type 0
HasGivenIds c = All (λ e. e.id ≤ c.next_ruleset_id) c.rulesets

put-All :
    (bound id : ℕ) (rules : AllowRules) (es : List Entry)
    → id ≤ bound
    → All (λ e. e.id ≤ bound) es
    → All (λ e. e.id ≤ bound) (put id rules es)
unfolding put
put-All bound id rules [] l h = (l, tt)
put-All bound id rules (e ∷ es) l h = ground (arith, put-All bound id rules es l h.1)

raise-All : (a b : ℕ) (es : List Entry) → a ≤ b → All (λ e. e.id ≤ a) es → All (λ e. e.id ≤ b) es
raise-All a b [] l h = tt
raise-All a b (e ∷ es) l h = (omega (arith, l, h.0), raise-All a b es l h.1)

delete-All :
    (bound id : ℕ) (es : List Entry)
    → All (λ e. e.id ≤ bound) es
    → All (λ e. e.id ≤ bound) (delete id es)
unfolding delete
delete-All bound id [] h = tt
delete-All bound id (e ∷ es) h = ground (arith, delete-All bound id es h.1)

find-le :
    (bound id : ℕ) (es : List Entry) (r : AllowRules)
    → find id es ≡ some r
    → All (λ e. e.id ≤ bound) es
    → id ≤ bound
unfolding find
find-le bound id [] r f h = absurd (ground arith)
find-le bound id (e ∷ es) r f h = ground (arith, find-le bound id es r)

pub create-HasGivenIds :
    (rules : AllowRules) (c : Client) → HasGivenIds c → HasGivenIds (create_tmp_ruleset rules c).1
unfolding create_tmp_ruleset changed_locked
create-HasGivenIds rules c h = elim (Bool-cases c.closed) [
  | inl e ↦ rw e h
  | inr e ↦ elim (Bool-cases (c.next_ruleset_id == 2 ^ 64 - 1)) [
    | inl f ↦ rw (e, f) h
    | inr f ↦
        rw (e, f)
          (put-All (c.next_ruleset_id + 1) (c.next_ruleset_id + 1) rules c.rulesets (omega arith)
            (raise-All c.next_ruleset_id (c.next_ruleset_id + 1) c.rulesets (omega arith) h))
  ]
]

pub update-HasGivenIds :
    (id : ℕ) (rules : AllowRules) (c : Client)
    → HasGivenIds c
    → HasGivenIds (update_tmp_ruleset id rules c).1
unfolding update_tmp_ruleset changed_locked
update-HasGivenIds id rules c h = elim (Bool-cases c.closed) [
  | inl e ↦ rw e h
  | inr e ↦ elim (Option-cases (find id c.rulesets)) [
    | inl f ↦ rw (e, f) h
    | inr (r, f) ↦
        rw (e, f)
          (put-All c.next_ruleset_id id rules c.rulesets
            (find-le c.next_ruleset_id id c.rulesets r f h) h)
  ]
]

pub delete-HasGivenIds :
    (id : ℕ) (c : Client) → HasGivenIds c → HasGivenIds (delete_tmp_ruleset id c).1
unfolding delete_tmp_ruleset changed_locked
delete-HasGivenIds id c h = elim (Bool-cases c.closed) [
  | inl e ↦ rw e h
  | inr e ↦ elim (Option-cases (find id c.rulesets)) [
    | inl f ↦ rw (e, f) h
    | inr (r, f) ↦ rw (e, f) (delete-All c.next_ruleset_id id c.rulesets h)
  ]
]

pub find-put :
    (id : ℕ) (rules : AllowRules) (es : List Entry) → find id (put id rules es) ≡ some rules
unfolding find put
find-put id rules [] = ground arith
find-put id rules (e ∷ es) = ground (arith, find-put id rules es)

pub find-put_other :
    (id other : ℕ) (rules : AllowRules) (es : List Entry)
    → other ≢ id
    → find other (put id rules es) ≡ find other es
unfolding find put
find-put_other id other rules [] n = ground arith
find-put_other id other rules (e ∷ es) n = ground (arith, find-put_other id other rules es n)

pub find-fresh :
    (bound id : ℕ) (es : List Entry) → bound < id → All (λ e. e.id ≤ bound) es → find id es ≡ none
unfolding find
find-fresh bound id [] l h = refl
find-fresh bound id (e ∷ es) l h = ground (arith, find-fresh bound id es l h.1)

-- When the ids in use were given out, a successful creation gives an id that names no ruleset yet;
-- after it the id names the new ruleset, and every other id names what it named before.
create_tmp_ruleset-find :
    (rules : AllowRules) (c : Client) (id other : ℕ)
    → HasGivenIds c
    → (create_tmp_ruleset rules c).0 ≡ ok id
    → other ≢ id
    → (find id c.rulesets ≡ none)
      × (find id (create_tmp_ruleset rules c).1.rulesets ≡ some rules)
      × (find other (create_tmp_ruleset rules c).1.rulesets ≡ find other c.rulesets)
unfolding create_tmp_ruleset
create_tmp_ruleset-find rules c id other h e n = ground (
  arith,
  find-fresh c.next_ruleset_id (c.next_ruleset_id + 1) c.rulesets,
  find-put (c.next_ruleset_id + 1) rules c.rulesets,
  find-put_other (c.next_ruleset_id + 1) other rules c.rulesets,
)

pub find-delete : (id : ℕ) (es : List Entry) → find id (delete id es) ≡ none
unfolding find delete
find-delete id [] = refl
find-delete id (e ∷ es) = ground (arith, find-delete id es)

pub find-delete_other :
    (id other : ℕ) (es : List Entry) → other ≢ id → find other (delete id es) ≡ find other es
unfolding find delete
find-delete_other id other [] n = refl
find-delete_other id other (e ∷ es) n = ground (arith, find-delete_other id other es n)

-- After the deletion of a ruleset from an open client no ruleset has the id, and another deletion
-- succeeds and changes nothing.
delete_tmp_ruleset-again :
    (id : ℕ) (c : Client)
    → c.closed ≡ false
    → (find id (delete_tmp_ruleset id c).1.rulesets ≡ none)
      × (delete_tmp_ruleset id (delete_tmp_ruleset id c).1 ≡ (none, (delete_tmp_ruleset id c).1))
unfolding delete_tmp_ruleset
delete_tmp_ruleset-again id c open_ = ground (arith, find-delete id c.rulesets)

-- The delays of `run` while its attempts to connect fail, each from the one before.
abbrev pub delay_after : ℕ → ℕ
delay_after zero = 1
delay_after (suc n) = next_delay (delay_after n)

late_delay : (n : ℕ) → delay_after (suc (suc (suc (suc (suc (suc n)))))) ≡ 64
unfolding next_delay
late_delay zero = refl
late_delay (suc n) = ground (arith, late_delay n)

-- The n-th delay in a row is 2 ^ n seconds as long as n is below 6, and 64 seconds from there on.
delay_after_lem : (n : ℕ) → delay_after n ≡ (if ltb n 6 then 2 ^ n else 64)
unfolding next_delay
delay_after_lem zero = refl
delay_after_lem (suc zero) = refl
delay_after_lem (suc (suc zero)) = refl
delay_after_lem (suc (suc (suc zero))) = refl
delay_after_lem (suc (suc (suc (suc zero)))) = refl
delay_after_lem (suc (suc (suc (suc (suc zero))))) = refl
delay_after_lem (suc (suc (suc (suc (suc (suc n)))))) = ground (arith, late_delay n)
