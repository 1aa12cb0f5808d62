-- ===== src/Routing/Monitor/Quiet.antt =====
-- Once a Manager is closed, its loop and its callers leave the kernel alone.
use sysnet_linux.Base.{
  ℤ, eq_ℤ, ◌≡◌, refl, sym, ap, subst, ◌∙◌, ◌⊎◌, inl, inr, true, not, ◌||◌, Option, none, some,
  arith, Bool-cases,
}
use sysnet_linux.Routing.Unix.{rt_table_main}
use sysnet_linux.Routing.Config.{Config, default_config as some_config}
use sysnet_linux.Routing.Adapter.{Adapter}
use sysnet_linux.Routing.Manager.{Manager, Outcome}
use sysnet_linux.Routing.Manager.Steps.{ManagerError}
use sysnet_linux.Routing.Manager.Outcomes.{Installs, closed_refuses}
use sysnet_linux.Routing.Monitor.{
  System, Move, Moves, on_update, on_end, on_timer, elapsed, on_done, on_drained, serve,
  resubscribe, after_refresh, begin_route_change, refresh_after_route_change, refreshed_config,
  finish_close, close_handles,
}

module _ (a : Adapter) where
  open a use {State, Failure}

  pub Installs-closed :
      (m : Manager) (c : Config) (o : Outcome a) → Installs a m c o → o.1.closed ≡ m.closed
  Installs-closed m c (none, m', s) (snapshot, d, e, q) = ap (λ x. x.closed) q
  Installs-closed m c (some e, m', s) q = ap (λ x. x.closed) q

  -- A closed Manager has nothing to refresh.
  refreshed_config-closed : (m : Manager) → m.closed ≡ true → refreshed_config m ≡ none
  unfolding refreshed_config
  refreshed_config-closed m c = simp c refl

  -- What the moves of the loop and the callers leave.
  abbrev Still : System a → System a → Type 0
  Still x y =
      (y.manager ≡ x.manager)
      × (y.kernel ≡ x.kernel)
      × (y.close_err ≡ x.close_err)
      × (y.monitor_ns_close ≡ x.monitor_ns_close)

  begin_still :
      (x : System a)
      → x.manager.closed ≡ true
      → (begin_route_change a x.manager x.kernel).1 ≡ x.kernel
  unfolding begin_route_change
  begin_still x c = simp (refreshed_config-closed x.manager c, begin_route_change) refl

  on_update-Still :
      (table : ℤ) (x : System a) → x.manager.closed ≡ true → Still x (on_update a table x)
  unfolding on_update
  on_update-Still table x c = elim (Bool-cases (not (eq_ℤ table rt_table_main) || x.loop.pending)) [
    | inl b ↦ simp (b, on_update) (refl, refl, refl, refl)
    | inr b ↦ simp (b, on_update) (refl, begin_still x c, refl, refl)
  ]

  on_end-Still : (x : System a) → x.manager.closed ≡ true → Still x (on_end a x)
  unfolding on_end
  on_end-Still x c = elim (Bool-cases x.loop.pending) [
    | inl p ↦ simp (p, on_end) (refl, refl, refl, refl)
    | inr p ↦ simp (p, on_end) (refl, begin_still x c, refl, refl)
  ]

  serve-Still : (x : System a) → x.manager.closed ≡ true → Still x (serve a x)
  unfolding serve refresh_after_route_change after_refresh
  serve-Still x c = elim (Bool-cases x.loop.pending) [
    | inr p ↦ simp (p, serve) (refl, refl, refl, refl)
    | inl p ↦
        simp
          (p, serve, refreshed_config-closed x.manager c, refresh_after_route_change, after_refresh)
          (refl, refl, refl, refl)
  ]

  resubscribe-Still :
      (answer : Option Failure) (x : System a)
      → x.manager.closed ≡ true
      → Still x (resubscribe a answer x)
  unfolding resubscribe
  resubscribe-Still (some e) x c = (refl, refl, refl, refl)
  resubscribe-Still none x c = serve-Still _ c

  elapsed-Still :
      (answer : Option Failure) (x : System a)
      → x.manager.closed ≡ true
      → Still x (elapsed a answer x)
  unfolding elapsed
  elapsed-Still answer x c = elim (Bool-cases x.loop.subscribed) [
    | inl u ↦ simp (u, elapsed) (serve-Still x c)
    | inr u ↦ elim (Bool-cases x.done) [
      | inl d ↦ simp (u, d, elapsed) (refl, refl, refl, refl)
      | inr d ↦ simp (u, d, elapsed) (resubscribe-Still answer x c)
    ]
  ]

  refused :
      (o : Outcome a) (e : Option (ManagerError Failure)) (m : Manager) (s : State)
      → o ≡ (e, m, s)
      → (o.1 ≡ m) × (o.2 ≡ s)
  refused o e m s h = (ap (λ p. p.1) h, ap (λ p. p.2) h)

  -- A move of a closed Manager changes the loop only, or ends its Close.
  abbrev StillOrEnds : System a → System a → Type 0
  StillOrEnds x y = Still x y ⊎ ((x.close_err ≡ none) × (y ≡ finish_close a x))

  move_closed : {x y : System a} → Move a x y → x.manager.closed ≡ true → StillOrEnds x y
  unfolding on_timer on_done on_drained
  move_closed (Move.updates table x r s) c = inl (on_update-Still table x c)
  move_closed (Move.ends x r s) c = inl (on_end-Still x c)
  move_closed (Move.expires answer d x r t) c = inl (elapsed-Still answer _ c)
  move_closed (Move.stops x r d) c = inl (refl, refl, refl, refl)
  move_closed (Move.discards x r) c = inl (refl, refl, refl, refl)
  move_closed (Move.drained x r) c = inl (refl, refl, refl, refl)
  move_closed (Move.applies f x) c =
      let (p, q) = refused _ _ _ _ (closed_refuses a f x.manager x.kernel c).0 in
      inl (p, q, refl, refl)
  move_closed (Move.refreshes x) c =
      let (p, q) = refused _ _ _ _ (closed_refuses a some_config x.manager x.kernel c).1 in
      inl (p, q, refl, refl)
  move_closed (Move.rolls_back f x) c =
      let (p, q) = refused _ _ _ _ (closed_refuses a f x.manager x.kernel c).2 in
      inl (p, q, refl, refl)
  move_closed (Move.closes x o) c = absurd (ground arith)
  move_closed (Move.closed x c' r n e) c = inr (e, refl)

  -- The system is still as at a first point, or the handles of that point were closed.
  abbrev pub HasEnded : System a → System a → Type 0
  HasEnded x y =
      (y.kernel ≡ (close_handles a x.monitor_ns_close x.kernel).1)
      × (y.close_err ≡ some (close_handles a x.monitor_ns_close x.kernel).0)

  abbrev StillOrEnded : System a → System a → Type 0
  StillOrEnded x y = Still x y ⊎ ((y.manager ≡ x.manager) × (x.close_err ≡ none) × HasEnded x y)

  finish_ends :
      (x y : System a) → Still x y → y.close_err ≡ none → StillOrEnded x (finish_close a y)
  unfolding finish_close
  finish_ends x y (m, k, e, n) free = inr (
    m,
    sym e ∙ free,
    (λ i. (close_handles a (n i) (k i)).1, λ i. some (close_handles a (n i) (k i)).0),
  )

  still_then : (x y z : System a) → StillOrEnded x y → StillOrEnds y z → StillOrEnded x z
  still_then x y z (inl (m, k, e, n)) (inl (m', k', e', n')) = inl (m' ∙ m, k' ∙ k, e' ∙ e, n' ∙ n)
  still_then x y z (inl s) (inr (free, q)) = subst (StillOrEnded x) (sym q) (finish_ends x y s free)
  still_then x y z (inr (m, free, (k, e))) (inl (m', k', e', n')) =
      inr (m' ∙ m, free, (k' ∙ k, e' ∙ e))
  still_then x y z (inr (m, free, (k, e))) (inr (free', q)) = absurd (ground arith)

  after_closed : {x y : System a} → Moves a x y → x.manager.closed ≡ true → StillOrEnded x y
  after_closed (Moves.starts x) c = inl (refl, refl, refl, refl)
  after_closed (Moves.follows {x} {y} {z} r m) c =
      let s = after_closed r c in
      still_then x y z s (move_closed m (ap (λ q. q.closed) (same_manager x y s) ∙ c))
    where
      same_manager : (x y : System a) → StillOrEnded x y → y.manager ≡ x.manager
      same_manager x y (inl s) = s.0
      same_manager x y (inr s) = s.0

  -- Once a Manager is closed, whatever the loop and the callers do, the state behind the adapter and
  -- the outcome of Close stay as they are, up to the one time that Close, if it had not ended,
  -- closes the handles and records their errors.
  pub closed_quiet :
      {x y : System a}
      → Moves a x y
      → x.manager.closed ≡ true
      → ((y.kernel ≡ x.kernel) × (y.close_err ≡ x.close_err))
        ⊎ ((x.close_err ≡ none) × HasEnded x y)
  closed_quiet r c = elim (after_closed r c) [
    | inl (m, k, e, n) ↦ inl (k, e)
    | inr (m, free, h) ↦ inr (free, h)
  ]
