-- ===== src/System/Closing/Released.antt =====
-- Closing the default TUN releases every part that it holds, or reports the part's error.
use mathlib.Core.List.{Memᴰ}
use sysnet_linux.Base.{
  ◌==◌, ℕ, zero, suc, ◌≡◌, refl, ◌⊎◌, inl, inr, Bool-cases, Bool, true, false, List, [], ◌∷◌,
  Option, none, some, mem-append_left, mem-append_right, mem-map_of,
}
use sysnet_linux.Routing.Manager.Steps.{each_join, add_error}
use sysnet_linux.System.Closing.{
  Parts, Action, PartAction, Held, DefaultTun, when, flatten, perform, teardown, close_active,
  close, set_dns,
}

abbrev part_at {ℓ} : {A : Type ℓ} → ℕ → List (List A) → List A
part_at n [] = []
part_at zero (xs ∷ xss) = xs
part_at (suc n) (xs ∷ xss) = part_at n xss

mem-part_at {ℓ} :
    {A : Type ℓ} {a : A} (n : ℕ) (xss : List (List A))
    → Memᴰ a (part_at n xss)
    → Memᴰ a (flatten xss)
mem-part_at n [] m = m
mem-part_at zero (xs ∷ xss) m = mem-append_left (flatten xss) m
mem-part_at (suc n) (xs ∷ xss) m = mem-append_right xs (mem-part_at n xss m)

mem-when : {A : Type 0} {a : A} {b : Bool} → b ≡ true → Memᴰ a (when b a)
mem-when e = rw e (Memᴰ.head refl)

module _ (p : Parts) where
  open p use {State, Failure}

  -- What a TUN holds, part by part.
  unfoldable pub Holds : PartAction p → Held p → Type 0
  Holds (Action.unregister_rule id) d = (p.has_tracker ≡ true) × Memᴰ id d.rule_ids
  Holds (Action.close_server v) d = d.server ≡ some v
  Holds Action.unset_dns d = p.has_dns_provider ≡ true
  Holds Action.clear_dns_interface d = d.dns_ifidx_set ≡ true
  Holds (Action.rollback_routing c) d = (p.has_routing ≡ true) × (d.routing_config ≡ some c)
  Holds Action.rollback_connmark d = (p.has_connmark ≡ true) × (d.connmark_set ≡ true)
  Holds (Action.delete_tmp_ruleset id) d =
      (p.has_killswitch ≡ true) × (d.killswitch_id ≡ id) × ((id == 0) ≡ false)
  Holds Action.clear_checker d = (p.has_pmark ≡ true) × (d.pmark_checker ≡ true)
  Holds (Action.close_device t) d = d.device ≡ some t

  -- What an action does to its part. An action that succeeds releases the part; one that fails has
  -- an error that names it; and no action takes back what another released.
  pub record ReleaseLaws (IsReleased : PartAction p → State → Type 0)
      (Blames : PartAction p → Failure → Type 0) : Type 0 where
    pub releases :
        (a : PartAction p) (s : State) → (perform p a s).0 ≡ none → IsReleased a (perform p a s).1
    pub blames :
        (a : PartAction p) (s : State) (e : Failure) → (perform p a s).0 ≡ some e → Blames a e
    pub keeps : (a b : PartAction p) (s : State) → IsReleased b s → IsReleased b (perform p a s).1
    pub callback_keeps :
        (b : PartAction p) (s : State) → IsReleased b s → IsReleased b (p.default_tun_closed s)

  held-mem : (a : PartAction p) (d : Held p) → Holds a d → Memᴰ a (flatten (teardown p d))
  unfolding Holds teardown
  held-mem (Action.unregister_rule id) d (t, m) =
      mem-part_at 0 (teardown p d) (rw t (mem-map_of Action.unregister_rule m))
  held-mem (Action.close_server v) d e = mem-part_at 1 (teardown p d) (rw e (Memᴰ.head refl))
  held-mem Action.unset_dns d e = mem-part_at 2 (teardown p d) (mem-when e)
  held-mem Action.clear_dns_interface d e = mem-part_at 3 (teardown p d) (mem-when e)
  held-mem (Action.rollback_routing c) d (t, e) =
      mem-part_at 4 (teardown p d) (rw (t, e) (Memᴰ.head refl))
  held-mem Action.rollback_connmark d (t, e) =
      mem-part_at 5 (teardown p d) (rw (t, e) (Memᴰ.head refl))
  held-mem (Action.delete_tmp_ruleset id) d (t, e, z) =
      mem-part_at 6 (teardown p d) (rw (t, e, z) (Memᴰ.head refl))
  held-mem Action.clear_checker d (t, e) = mem-part_at 7 (teardown p d) (rw (t, e) (Memᴰ.head refl))
  held-mem (Action.close_device t) d e = mem-part_at 8 (teardown p d) (rw e (Memᴰ.head refl))

  -- Released, or blamed by an error.
  abbrev pub IsSettled :
      (PartAction p → State → Type 0)
      → (PartAction p → Failure → Type 0)
      → PartAction p
      → List Failure × State
      → Type 0
  IsSettled IsReleased Blames a (es, s) = IsReleased a s ⊎ ((e : Failure) × Memᴰ e es × Blames a e)

  module _ (IsReleased : PartAction p → State → Type 0) (Blames : PartAction p → Failure → Type 0)
      (laws : ReleaseLaws IsReleased Blames) where
    each-IsReleased :
        (b : PartAction p) (xs : List (PartAction p)) (s : State)
        → IsReleased b s
        → IsReleased b (each_join (perform p) xs s).1
    unfolding each_join
    each-IsReleased b [] s h = h
    each-IsReleased b (x ∷ xs) s h = each-IsReleased b xs (perform p x s).1 (laws.keeps x b s h)

    first-IsSettled :
        (a : PartAction p) (xs : List (PartAction p)) (s : State) (o : Option Failure)
        → (perform p a s).0 ≡ o
        → IsSettled IsReleased Blames a (
          add_error o (each_join (perform p) xs (perform p a s).1).0,
          (each_join (perform p) xs (perform p a s).1).1,
        )
    first-IsSettled a xs s none e = inl (each-IsReleased a xs _ (laws.releases a s e))
    first-IsSettled a xs s (some f) e = inr (f, Memᴰ.head refl, laws.blames a s f e)

    later-IsSettled :
        (a : PartAction p) (o : Option Failure) (r : List Failure × State)
        → IsSettled IsReleased Blames a r
        → IsSettled IsReleased Blames a (add_error o r.0, r.1)
    later-IsSettled a none r h = h
    later-IsSettled a (some f) r (inl h) = inl h
    later-IsSettled a (some f) r (inr (e, m, b)) = inr (e, Memᴰ.tail m, b)

    each_join-IsSettled :
        (a : PartAction p) (xs : List (PartAction p)) (s : State)
        → Memᴰ a xs
        → IsSettled IsReleased Blames a (each_join (perform p) xs s)
    unfolding each_join
    each_join-IsSettled a [] s l = elim l [ ]
    each_join-IsSettled a (x ∷ xs) s (Memᴰ.head e) =
        rw (← e) (first-IsSettled a xs s (perform p a s).0 refl)
    each_join-IsSettled a (x ∷ xs) s (Memᴰ.tail m) =
        later-IsSettled a (perform p x s).0 _ (each_join-IsSettled a xs (perform p x s).1 m)

    after_callback :
        (a : PartAction p) (r : List Failure × State)
        → IsSettled IsReleased Blames a r
        → IsSettled IsReleased Blames a (r.0, p.default_tun_closed r.1)
    after_callback a r (inl h) = inl (laws.callback_keeps a r.1 h)
    after_callback a r (inr b) = inr b

    -- When the TUN is active, Close releases every part that the TUN holds or returns an error that
    -- blames the part, whatever else fails, provided that an action that succeeds releases its part,
    -- that one that fails has an error that blames it, and that no other action and no callback take
    -- a released part back. A second Close then returns no error and changes nothing, and SetDNS is
    -- refused and changes nothing.
    pub close-IsSettled :
        (x : DefaultTun p) (s : State)
        → x.is_active ≡ true
        → let r = close p x s in
          ((a : PartAction p) → Holds a x.held → IsSettled IsReleased Blames a (r.0, r.2))
          × (close p r.1 r.2 ≡ ([], r.1, r.2))
          × ((d : Option p.Resolver) → set_dns p d r.1 r.2 ≡ (true, r.1, r.2))
    unfolding close close_active set_dns
    close-IsSettled x s e = rw e (
      λ a h. after_callback a _ (each_join-IsSettled a _ s (held-mem a x.held h)),
      refl,
      λ d. elim (Bool-cases x.system_closed) [ inl c ↦ rw c refl | inr c ↦ rw c refl ],
    )
