-- ===== src/Killswitch/Client/Calls.antt =====
-- Sequences of CreateTmpRuleset, UpdateTmpRuleset and DeleteTmpRuleset of killswitch/client.go, with the
-- rulesets as a map from ids.
use sysnet_linux.Base.{
  if-case, ap, ◌∙◌, ==_iff, ℕ, ◌+◌, ◌-◌, ◌^◌, ◌≤◌, ◌<◌, ◌==◌, ◌≡◌, ◌⊎◌, refl, true, inl, inr, List,
  [], ◌∷◌, Option, none, some, Result, ok, err, arith, All, if◌then◌else◌, Bool-cases,
}
use sysnet_linux.Killswitch.Rules.{AllowRules}
use sysnet_linux.Killswitch.Client.{
  Client, find, create_tmp_ruleset, update_tmp_ruleset, delete_tmp_ruleset, update_found,
  delete_found, changed_locked, notify, new_client, ClientError,
}
use sysnet_linux.Killswitch.Client.Ids.{
  HasGivenIds, find-put, find-put_other, find-fresh, find-delete, find-delete_other,
  create-HasGivenIds, update-HasGivenIds, delete-HasGivenIds,
}

-- The calls on rulesets, beside which nothing touches the ids and the rulesets.
pub data Call : Type 0 where
  create : AllowRules → Call
  update : ℕ → AllowRules → Call
  delete_it : ℕ → Call

pub data Answer : Type 0 where
  given : ℕ → Answer
  done : Answer
  refused : ClientError → Answer

abbrev created : Result ClientError ℕ → Answer
created (ok id) = given id
created (err e) = refused e

abbrev changed : Option ClientError → Answer
changed none = done
changed (some e) = refused e

abbrev pub answer : Call → Client → Answer
answer (create rules) c = created (create_tmp_ruleset rules c).0
answer (update id rules) c = changed (update_tmp_ruleset id rules c).0
answer (delete_it id) c = changed (delete_tmp_ruleset id c).0

abbrev pub after : Call → Client → Client
after (create rules) c = (create_tmp_ruleset rules c).1
after (update id rules) c = (update_tmp_ruleset id rules c).1
after (delete_it id) c = (delete_tmp_ruleset id c).1

abbrev pub after_all : List Call → Client → Client
after_all [] c = c
after_all (x ∷ xs) c = after_all xs (after x c)

abbrev cons_given : Answer → List ℕ → List ℕ
cons_given (given id) ids = id ∷ ids
cons_given _ ids = ids

-- The ids that the calls give out, in their order.
abbrev pub given_ids : List Call → Client → List ℕ
given_ids [] c = []
given_ids (x ∷ xs) c = cons_given (answer x c) (given_ids xs (after x c))

-- Each id is below all later ones.
abbrev pub IsIncreasing : List ℕ → Type 0
IsIncreasing [] = Unit
IsIncreasing (i ∷ ids) = All (λ j. i < j) ids × IsIncreasing ids

-- What a call makes of the ruleset of an id, by its answer: the specification of a map.
abbrev pub written : Call → Answer → ℕ → Option AllowRules → Option AllowRules
written (create rules) (given id) other r = if other == id then some rules else r
written (update id rules) done other r = if other == id then some rules else r
written (delete_it id) done other r = if other == id then none else r
written _ _ other r = r

-- What an answer says of the client before: a new id names no ruleset, an update that succeeds finds
-- one, and a refusal has a reason.
abbrev pub Expected : Call → Answer → Client → Type 0
Expected (create rules) (given id) c = find id c.rulesets ≡ none
Expected (update id rules) done c = (r : AllowRules) × (find id c.rulesets ≡ some r)
Expected (delete_it id) done c = Unit
Expected (create rules) (refused e) c = (c.closed ≡ true) ⊎ (c.next_ruleset_id ≡ 2 ^ 64 - 1)
Expected (update id rules) (refused e) c = (c.closed ≡ true) ⊎ (find id c.rulesets ≡ none)
Expected (delete_it id) (refused e) c = c.closed ≡ true
Expected _ _ c = ⊥

-- An outcome of a call agrees with the specification.
abbrev pub Follows : Call → Client → Answer → Client → Type 0
Follows x c a d =
    ((other : ℕ) → find other d.rulesets ≡ written x a other (find other c.rulesets))
    × Expected x a c
    × (d.closed ≡ c.closed)

create-Follows :
    (rules : AllowRules) (c : Client)
    → HasGivenIds c
    → Follows (create rules) c (answer (create rules) c) (after (create rules) c)
unfolding create_tmp_ruleset changed_locked notify
create-Follows rules c h =
    if-case P c.closed (λ e. (λ other. refl, inl e, refl))
      (λ _.
        if-case P (c.next_ruleset_id == 2 ^ 64 - 1)
          (λ e. (λ other. refl, inr ((==_iff c.next_ruleset_id (2 ^ 64 - 1)).0 e), refl))
          (λ _. (
            λ other. ground (
              arith,
              find-put (c.next_ruleset_id + 1) rules c.rulesets,
              find-put_other (c.next_ruleset_id + 1) other rules c.rulesets,
            ),
            find-fresh c.next_ruleset_id (c.next_ruleset_id + 1) c.rulesets (omega arith) h,
            refl,
          )))
  where
    P : Result ClientError ℕ × Client → Type 0
    P o = Follows (create rules) c (created o.0) o.1

update-Follows :
    (id : ℕ) (rules : AllowRules) (c : Client)
    → Follows (update id rules) c (answer (update id rules) c) (after (update id rules) c)
unfolding update_tmp_ruleset update_found changed_locked notify
update-Follows id rules c =
    if-case P c.closed (λ e. (λ other. refl, inl e, refl)) (λ _. of (find id c.rulesets) refl)
  where
    P : Option ClientError × Client → Type 0
    P o = Follows (update id rules) c (changed o.0) o.1

    of : (r : Option AllowRules) → find id c.rulesets ≡ r → P (update_found id rules c r)
    of none f = (λ other. refl, inr f, refl)
    of (some r) f = (
      λ other.
          ground (arith, find-put id rules c.rulesets, find-put_other id other rules c.rulesets),
      (r, f),
      refl,
    )

delete-Follows :
    (id : ℕ) (c : Client)
    → Follows (delete_it id) c (answer (delete_it id) c) (after (delete_it id) c)
unfolding delete_tmp_ruleset delete_found changed_locked notify
delete-Follows id c =
    if-case P c.closed (λ e. (λ other. refl, e, refl)) (λ _. of (find id c.rulesets) refl)
  where
    P : Option ClientError × Client → Type 0
    P o = Follows (delete_it id) c (changed o.0) o.1

    of : (r : Option AllowRules) → find id c.rulesets ≡ r → P (delete_found id c r)
    of none f = (
      λ other. elim (Bool-cases (other == id)) [
        | inl g ↦ rw g (ap (λ k. find k c.rulesets) ((==_iff other id).0 g) ∙ f)
        | inr g ↦ rw g refl
      ],
      tt,
      refl,
    )
    of (some r) f = (
      λ other. ground (arith, find-delete id c.rulesets, find-delete_other id other c.rulesets),
      tt,
      refl,
    )

call-Follows : (x : Call) (c : Client) → HasGivenIds c → Follows x c (answer x c) (after x c)
call-Follows (create rules) c h = create-Follows rules c h
call-Follows (update id rules) c h = update-Follows id rules c
call-Follows (delete_it id) c h = delete-Follows id c

after-HasGivenIds : (x : Call) (c : Client) → HasGivenIds c → HasGivenIds (after x c)
after-HasGivenIds (create rules) c h = create-HasGivenIds rules c h
after-HasGivenIds (update id rules) c h = update-HasGivenIds id rules c h
after-HasGivenIds (delete_it id) c h = delete-HasGivenIds id c h

after_all-HasGivenIds : (xs : List Call) (c : Client) → HasGivenIds c → HasGivenIds (after_all xs c)
after_all-HasGivenIds [] c h = h
after_all-HasGivenIds (x ∷ xs) c h = after_all-HasGivenIds xs (after x c) (after-HasGivenIds x c h)

-- Ids above a bound, in order, that fit 64 bits.
abbrev IsAbove : ℕ → List ℕ → Type 0
IsAbove n ids = All (λ i. (n < i) × (i < 2 ^ 64)) ids × IsIncreasing ids

lower : (n m : ℕ) (ids : List ℕ) → n ≤ m → IsAbove m ids → IsAbove n ids
lower n m [] l h = h
lower n m (i ∷ ids) l h =
    (((omega (arith, h.0.0.0, l), h.0.0.1), (lower n m ids l (h.0.1, h.1.1)).0), h.1)

alls : (i : ℕ) (ids : List ℕ) → All (λ j. (i < j) × (j < 2 ^ 64)) ids → All (λ j. i < j) ids
alls i [] h = tt
alls i (j ∷ ids) h = (h.0.0, alls i ids h.1)

put_first :
    (n : ℕ) (ids : List ℕ) → n + 1 < 2 ^ 64 → IsAbove (n + 1) ids → IsAbove n ((n + 1) ∷ ids)
put_first n ids l h =
    (((omega arith, l), (lower n (n + 1) ids (omega arith) h).0), (alls (n + 1) ids h.0, h.1))

-- The last id given out fits 64 bits, and a call raises it when it gives one out only.
abbrev Continues : ℕ → List ℕ → Answer → Client → Type 0
Continues n ids a d =
    (d.next_ruleset_id < 2 ^ 64 → IsAbove d.next_ruleset_id ids) → IsAbove n (cons_given a ids)

create-Continues :
    (rules : AllowRules) (c : Client) (ids : List ℕ)
    → c.next_ruleset_id < 2 ^ 64
    → Continues c.next_ruleset_id ids (answer (create rules) c) (after (create rules) c)
unfolding create_tmp_ruleset changed_locked notify
create-Continues rules c ids l =
    if-case P c.closed (λ _ h. h l)
      (λ _.
        if-case P (c.next_ruleset_id == 2 ^ 64 - 1) (λ _ h. h l)
          (λ f h.
            let below : c.next_ruleset_id + 1 < 2 ^ 64 = ground arith in
            put_first c.next_ruleset_id ids below (h below)))
  where
    P : Result ClientError ℕ × Client → Type 0
    P o = Continues c.next_ruleset_id ids (created o.0) o.1

update-Continues :
    (id : ℕ) (rules : AllowRules) (c : Client) (ids : List ℕ)
    → c.next_ruleset_id < 2 ^ 64
    → Continues c.next_ruleset_id ids (answer (update id rules) c) (after (update id rules) c)
unfolding update_tmp_ruleset update_found changed_locked notify
update-Continues id rules c ids l = if-case P c.closed (λ _ h. h l) (λ _. of (find id c.rulesets))
  where
    P : Option ClientError × Client → Type 0
    P o = Continues c.next_ruleset_id ids (changed o.0) o.1

    of : (r : Option AllowRules) → P (update_found id rules c r)
    of none h = h l
    of (some r) h = h l

delete-Continues :
    (id : ℕ) (c : Client) (ids : List ℕ)
    → c.next_ruleset_id < 2 ^ 64
    → Continues c.next_ruleset_id ids (answer (delete_it id) c) (after (delete_it id) c)
unfolding delete_tmp_ruleset delete_found changed_locked notify
delete-Continues id c ids l = if-case P c.closed (λ _ h. h l) (λ _. of (find id c.rulesets))
  where
    P : Option ClientError × Client → Type 0
    P o = Continues c.next_ruleset_id ids (changed o.0) o.1

    of : (r : Option AllowRules) → P (delete_found id c r)
    of none h = h l
    of (some r) h = h l

call-Continues :
    (x : Call) (c : Client) (ids : List ℕ)
    → c.next_ruleset_id < 2 ^ 64
    → Continues c.next_ruleset_id ids (answer x c) (after x c)
call-Continues (create rules) c ids l = create-Continues rules c ids l
call-Continues (update id rules) c ids l = update-Continues id rules c ids l
call-Continues (delete_it id) c ids l = delete-Continues id c ids l

given_ids-IsAbove :
    (xs : List Call) (c : Client)
    → c.next_ruleset_id < 2 ^ 64
    → IsAbove c.next_ruleset_id (given_ids xs c)
given_ids-IsAbove [] c l = (tt, tt)
given_ids-IsAbove (x ∷ xs) c l =
    call-Continues x c (given_ids xs (after x c)) l (given_ids-IsAbove xs (after x c))

-- In any sequence of creations, updates and deletions on a new client, the ids given out increase
-- and lie between 1 and 2 ^ 64 - 1, so that none is given out twice. Each further call does to the
-- ruleset of every id what a map does: a creation that gives an id, which named none before, and an
-- update that succeeds, which found one, write that id only, a deletion that succeeds removes that
-- id only, and a call that is refused changes none: only a closed client refuses, or one whose ids are
-- exhausted a creation, or one without the ruleset an update. No call closes the client.
pub rulesets-IsMap :
    (calls : List Call) (x : Call)
    → All (λ i. (0 < i) × (i < 2 ^ 64)) (given_ids calls new_client)
      × IsIncreasing (given_ids calls new_client)
      × Follows x
          (after_all calls new_client)
          (answer x (after_all calls new_client))
          (after x (after_all calls new_client))
rulesets-IsMap calls x =
    let (a, b) = given_ids-IsAbove calls new_client (omega arith) in
    (a, b, call-Follows x (after_all calls new_client) (after_all-HasGivenIds calls new_client tt))
