-- ===== src/Routing/Monitor/Pending.antt =====
-- No change of the main table is forgotten: the timer is armed as long as one waits to be served.
use sysnet_linux.Base.{
  ℕ, ℤ, eq_ℤ, ◌≡◌, refl, and-true, ◌⊎◌, inl, inr, Bool, true, false, not, ◌&&◌, ◌||◌, Option, none,
  some, arith, Bool-cases, Option-cases,
}
use sysnet_linux.Routing.Unix.{rt_table_main}
use sysnet_linux.Routing.Adapter.{Adapter}
use sysnet_linux.Routing.Manager.{Outcome}
use sysnet_linux.Routing.Manager.Steps.{Step}
use sysnet_linux.Routing.Monitor.{
  System, Loop, delay_after, after_refresh, Move, Moves, new_manager, on_update, on_end, on_timer,
  elapsed, on_done, on_drained, serve, resubscribe, is_none, refresh_after_route_change,
  begin_close, finish_close, default_route_monitor_debounce, default_route_monitor_retry,
}

-- One of the two delays.
abbrev pub IsDelay : ℕ → Type 0
IsDelay d = (d ≡ default_route_monitor_debounce) ⊎ (d ≡ default_route_monitor_retry)

abbrev pub IsArmed : Loop → Type 0
IsArmed l = (d : ℕ) × (l.timer ≡ some d) × IsDelay d

-- A loop that has something to do, or no subscription, waits for its timer.
abbrev pub IsAwake : Loop → Type 0
IsAwake l = (l.pending ≡ true) ⊎ (l.subscribed ≡ false) → IsArmed l

module _ (a : Adapter) where
  open a use {State, Failure}

  -- Whether the expiry of the timer leads to a refresh that succeeds, or that nothing needs.
  abbrev pub serves : Option Failure → System a → Bool
  serves answer x =
      (x.loop.subscribed || (not x.done && is_none answer))
      && is_none (refresh_after_route_change a x.manager x.kernel).0

  -- Whether, after a move, a change of the main table or a loss of the subscription is not yet
  -- followed by such a refresh.
  abbrev owes : Bool → {x y : System a} → Move a x y → Bool
  owes b (Move.updates table x r s) = b || eq_ℤ table rt_table_main
  owes b (Move.ends x r s) = true
  owes b (Move.expires answer d x r t) = b && not (serves answer x)
  owes b (Move.stops x r d) = b
  owes b (Move.discards x r) = b
  owes b (Move.drained x r) = b
  owes b (Move.applies c x) = b
  owes b (Move.refreshes x) = b
  owes b (Move.rolls_back c x) = b
  owes b (Move.closes x o) = b
  owes b (Move.closed x c r n e) = b

  abbrev pub owed : {x y : System a} → Moves a x y → Bool
  owed (Moves.starts x) = false
  owed (Moves.follows r m) = owes (owed r) m

  after_refresh-IsAwake :
      (o : Outcome a) (x : System a) → x.loop.subscribed ≡ true → IsAwake (after_refresh a o x).loop
  unfolding after_refresh
  after_refresh-IsAwake (some e, m, s) x u w = (default_route_monitor_retry, refl, inr refl)
  after_refresh-IsAwake (none, m, s) x u w = absurd (ground arith)

  serve-IsAwake : (x : System a) → x.loop.subscribed ≡ true → IsAwake (serve a x).loop
  unfolding serve
  serve-IsAwake x u = elim (Bool-cases x.loop.pending) [
    | inr p ↦ simp (p, serve) (λ w. absurd (ground arith))
    | inl p ↦ simp (p, serve) (after_refresh-IsAwake _ x u)
  ]

  resubscribe-IsAwake :
      (answer : Option Failure) (x : System a) → IsAwake (resubscribe a answer x).loop
  unfolding resubscribe
  resubscribe-IsAwake (some e) x w = (default_route_monitor_retry, refl, inr refl)
  resubscribe-IsAwake none x w = serve-IsAwake _ refl w

  elapsed-IsAwake :
      (answer : Option Failure) (x : System a)
      → (elapsed a answer x).loop.running ≡ true
      → IsAwake (elapsed a answer x).loop
  unfolding elapsed
  elapsed-IsAwake answer x r = elim (Bool-cases x.loop.subscribed) [
    | inl u ↦ simp (u, elapsed) (serve-IsAwake x u)
    | inr u ↦ elim (Bool-cases x.done) [
      | inl d ↦ absurd (ground arith)
      | inr d ↦ simp (u, d, elapsed) (resubscribe-IsAwake answer x)
    ]
  ]

  delay_after-IsDelay : (e : Option Failure) → IsDelay (delay_after a e)
  delay_after-IsDelay none = inl refl
  delay_after-IsDelay (some e) = inr refl

  on_update-IsAwake :
      (table : ℤ) (x : System a) → IsAwake x.loop → IsAwake (on_update a table x).loop
  unfolding on_update
  on_update-IsAwake table x h =
      elim (Bool-cases (not (eq_ℤ table rt_table_main) || x.loop.pending)) [
        | inl b ↦ simp (b, on_update) h
        | inr b ↦ simp (b, on_update) (λ w. (_, refl, delay_after-IsDelay _))
      ]

  -- Every move of a running loop leaves it awake.
  move-IsAwake :
      {x y : System a}
      → Move a x y
      → (x.loop.running ≡ true → IsAwake x.loop)
      → y.loop.running ≡ true
      → IsAwake y.loop
  unfolding on_timer on_end on_done on_drained begin_close finish_close
  move-IsAwake (Move.updates table x r s) ih r' = on_update-IsAwake table x (ih r)
  move-IsAwake (Move.ends x r s) ih r' = λ w. (default_route_monitor_retry, refl, inr refl)
  move-IsAwake (Move.expires answer d x r t) ih r' = elapsed-IsAwake answer _ r'
  move-IsAwake (Move.stops x r d) ih r' = absurd (ground arith)
  move-IsAwake (Move.discards x r) ih r' = ih r'
  move-IsAwake (Move.drained x r) ih r' = ih r'
  move-IsAwake (Move.applies c x) ih r' = ih r'
  move-IsAwake (Move.refreshes x) ih r' = ih r'
  move-IsAwake (Move.rolls_back c x) ih r' = ih r'
  move-IsAwake (Move.closes x o) ih r' = ih r'
  move-IsAwake (Move.closed x c r n e) ih r' = ih r'

  moves-IsAwake :
      {x y : System a}
      → Moves a x y
      → (x.loop.running ≡ true → IsAwake x.loop)
      → y.loop.running ≡ true
      → IsAwake y.loop
  moves-IsAwake (Moves.starts x) h = h
  moves-IsAwake (Moves.follows r m) h = move-IsAwake m (moves-IsAwake r h)

  -- In every execution from a new Manager, as long as the loop is at its select, while a change is
  -- pending or there is no subscription, the timer is armed with one of the two delays.
  pub Moves-IsArmed :
      (ns : Option (Step a Failure)) (s : State) {x : System a}
      → Moves a (new_manager a ns s) x
      → x.loop.running ≡ true
      → (x.loop.pending ≡ true) ⊎ (x.loop.subscribed ≡ false)
      → IsArmed x.loop
  Moves-IsArmed ns s r = moves-IsAwake r (λ t w. absurd (ground arith))

  not-true : (b : Bool) → not b ≡ true → b ≡ false
  not-true b h = ground arith

  serve-pending :
      (x : System a)
      → x.loop.pending ≡ true
      → is_none (refresh_after_route_change a x.manager x.kernel).0 ≡ false
      → (serve a x).loop.pending ≡ true
  unfolding serve after_refresh
  serve-pending x p n = elim (Option-cases (refresh_after_route_change a x.manager x.kernel).0) [
    | inl e ↦ absurd (ground arith)
    | inr (f, e) ↦ simp (p, e, serve, after_refresh) refl
  ]

  unserved-pending :
      (answer : Option Failure) (x : System a)
      → x.loop.pending ≡ true
      → serves answer x ≡ false
      → (elapsed a answer x).loop.pending ≡ true
  unfolding elapsed resubscribe
  unserved-pending answer x p n = elim (Bool-cases x.loop.subscribed) [
    | inl u ↦ simp (u, elapsed) (serve-pending x p (ground arith))
    | inr u ↦ elim (Bool-cases x.done) [
      | inl d ↦ simp (u, d, elapsed) p
      | inr d ↦ elim (Option-cases answer) [
        | inr (f, q) ↦ simp (u, d, q, elapsed, resubscribe) p
        | inl q ↦ simp (u, d, q, elapsed, resubscribe) (serve-pending _ p (ground arith))
      ]
    ]
  ]

  owed-pending : {x y : System a} (r : Moves a x y) → owed r ≡ true → y.loop.pending ≡ true
  unfolding on_timer on_end on_done on_drained begin_close finish_close on_update
  owed-pending (Moves.starts x) o = absurd (ground arith)
  owed-pending (Moves.follows r (Move.updates table x p s)) o = ground (arith, owed-pending r)
  owed-pending (Moves.follows r (Move.ends x p s)) o = refl
  owed-pending (Moves.follows r (Move.expires answer d x p t)) o =
      let (b, n) = and-true (owed r) (not (serves answer x)) o in
      unserved-pending answer _ (owed-pending r b) (not-true _ n)
  owed-pending (Moves.follows r (Move.stops x p d)) o = owed-pending r o
  owed-pending (Moves.follows r (Move.discards x p)) o = owed-pending r o
  owed-pending (Moves.follows r (Move.drained x p)) o = owed-pending r o
  owed-pending (Moves.follows r (Move.applies c x)) o = owed-pending r o
  owed-pending (Moves.follows r (Move.refreshes x)) o = owed-pending r o
  owed-pending (Moves.follows r (Move.rolls_back c x)) o = owed-pending r o
  owed-pending (Moves.follows r (Move.closes x p)) o = owed-pending r o
  owed-pending (Moves.follows r (Move.closed x c p n e)) o = owed-pending r o

  -- In an execution from a new Manager after which a change of the main table or a loss of the
  -- subscription is not yet followed by a refresh that succeeded, while the loop is at its select, the
  -- change is pending and the timer is armed with one of the two delays.
  pub owed-IsArmed :
      (ns : Option (Step a Failure)) (s : State) {x : System a} (r : Moves a (new_manager a ns s) x)
      → owed r ≡ true
      → x.loop.running ≡ true
      → (x.loop.pending ≡ true) × IsArmed x.loop
  owed-IsArmed ns s r o t = (owed-pending r o, Moves-IsArmed ns s r t (inl (owed-pending r o)))
