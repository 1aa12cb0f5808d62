-- ===== src/Routing/Monitor.antt =====
-- routing/monitor.go, and Close of routing/manager.go: the loop that follows the changes of the main
-- table, its timer, and all interleavings of the loop with the operations of the Manager, as a step
-- relation. The channels of the source are the conditions and the arguments of the steps.
pub mod Pending
pub mod Waiting
pub mod Quiet
use sysnet_linux.Base.{
  ℕ, zero, suc, ℤ, eq_ℤ, ◌≡◌, ◌≢◌, Bool, true, false, not, ◌&&◌, ◌||◌, List, [], ◌∷◌, Option, none,
  some, if◌then◌else◌,
}
use sysnet_linux.Routing.Unix.{rt_table_main}
use sysnet_linux.Routing.Config.{Config, Strictness, strict, non_strict, strictness_other}
use sysnet_linux.Routing.Compiler.{DesiredState}
use sysnet_linux.Routing.Adapter.{Adapter}
use sysnet_linux.Routing.Manager.{
  Manager, Outcome, apply, refresh, rollback, refresh_locked, family_guards,
}
use sysnet_linux.Routing.Manager.Steps.{ManagerError, Step, each_until, each_join}

-- Durations, in milliseconds.
abbrev pub default_route_monitor_debounce : ℕ
default_route_monitor_debounce = 50

abbrev pub default_route_monitor_retry : ℕ
default_route_monitor_retry = 250

-- The variables of monitorRouteUpdates: `subscribed` says that `events` is not nil, `timer` with
-- which delay `timerC` was armed, `running` that the function is at its select, and `draining` that
-- it reads what is left of `events` before it returns.
pub record Loop : Type 0 where
  pub running : Bool
  pub draining : Bool
  pub subscribed : Bool
  pub timer : Option ℕ
  pub pending : Bool

abbrev pub is_strict : Strictness → Bool
is_strict strict = true
is_strict non_strict = false
is_strict (strictness_other _) = false

-- The configuration that a change of the main table concerns, when there is one.
unfoldable pub refreshed_config : Manager → Option Config
refreshed_config m = if m.closed then none else elim m.applied [
  | none ↦ none
  | some d ↦ if is_strict d.config.strictness then none else some d.config
]

abbrev pub is_none {ℓ} : {A : Type ℓ} → Option A → Bool
is_none none = true
is_none (some _) = false

module _ (a : Adapter) where
  open a use {State, Failure}

  unfoldable pub begin_route_change : Manager → Step a Failure
  unfolding each_until refreshed_config
  begin_route_change m s = elim (refreshed_config m) [
    | none ↦ (none, s)
    | some c ↦ each_until a.add_rule (family_guards a c) s
  ]

  unfoldable pub refresh_after_route_change : Manager → State → Outcome a
  unfolding refresh_locked refreshed_config
  refresh_after_route_change m s = elim (refreshed_config m) [
    | none ↦ (none, m, s)
    | some c ↦ refresh_locked a c m s
  ]

  -- The Manager with its monitor: `done` says that monitorDone was closed, `close_err` is known once
  -- Close has ended.
  pub record System : Type 0 where
    pub manager : Manager
    pub monitor_ns_close : Option (Step a Failure)
    pub kernel : State
    pub loop : Loop
    pub done : Bool
    pub close_err : Option (List Failure)

  -- After NewManager.
  abbrev pub new_manager : Option (Step a Failure) → State → System
  new_manager ns_close s = record {
    manager = record { closed = false; applied = none };
    monitor_ns_close = ns_close;
    kernel = s;
    loop = record {
      running = true;
      draining = false;
      subscribed = true;
      timer = none;
      pending = false;
    };
    done = false;
    close_err = none;
  }

  abbrev pub delay_after : Option Failure → ℕ
  delay_after none = default_route_monitor_debounce
  delay_after (some e) = default_route_monitor_retry

  -- An update of a table.
  unfoldable pub on_update : ℤ → System → System
  unfolding begin_route_change
  on_update table x =
      if not (eq_ℤ table rt_table_main) || x.loop.pending
      then x
      else let (e, s) = begin_route_change x.manager x.kernel in
        record x {
          kernel = s;
          loop = record x.loop { pending = true; timer = some (delay_after e) };
        }

  -- The end of the subscription.
  unfoldable pub on_end : System → System
  unfolding begin_route_change
  on_end x =
      let s = if x.loop.pending then x.kernel else (begin_route_change x.manager x.kernel).1 in
      let l = record x.loop {
        subscribed = false;
        pending = true;
        timer = some default_route_monitor_retry;
      } in
      record x { kernel = s; loop = l }

  -- What follows the expiry of the timer once there is a subscription.
  unfoldable pub after_refresh : Outcome a → System → System
  after_refresh (some e, m, s) x = record x {
    manager = m;
    kernel = s;
    loop = record x.loop { timer = some default_route_monitor_retry };
  }
  after_refresh (none, m, s) x = record x {
    manager = m;
    kernel = s;
    loop = record x.loop { pending = false };
  }

  unfoldable pub serve : System → System
  serve x =
      if not x.loop.pending
      then x
      else after_refresh (refresh_after_route_change x.manager x.kernel) x

  abbrev pub with_loop : Loop → System → System
  with_loop l x = record x { loop = l }

  unfoldable pub resubscribe : Option Failure → System → System
  resubscribe (some e) x = with_loop (record x.loop { timer = some default_route_monitor_retry }) x
  resubscribe none x = serve (with_loop (record x.loop { subscribed = true }) x)

  -- The expiry of the timer; the argument is what a subscription would answer.
  unfoldable pub elapsed : Option Failure → System → System
  elapsed answer x =
      if x.loop.subscribed
      then serve x
      else (if x.done
          then with_loop (record x.loop { running = false }) x
          else resubscribe answer x)

  unfoldable pub on_timer : Option Failure → System → System
  on_timer answer x = elapsed answer (with_loop (record x.loop { timer = none }) x)

  -- monitorDone is closed: the subscription, if any, is stopped, and its channel read to the end.
  unfoldable pub on_done : System → System
  on_done x =
      with_loop
        (record x.loop { running = false; draining = x.loop.subscribed; subscribed = false }) x

  -- The end of that channel, which the netlink library closes some time after the stop.
  unfoldable pub on_drained : System → System
  on_drained x = with_loop (record x.loop { draining = false }) x

  abbrev pub with_outcome : Outcome a → System → System
  with_outcome (e, m, s) x = record x { manager = m; kernel = s }

  -- Close, up to the wait for the loop.
  unfoldable pub begin_close : System → System
  begin_close x = record x { manager = record x.manager { closed = true }; done = true }

  abbrev closers : Option (Step a Failure) → List (Step a Failure)
  closers none = a.close ∷ []
  closers (some f) = a.close ∷ f ∷ []

  unfoldable pub close_handles : Option (Step a Failure) → State → List Failure × State
  unfolding each_join
  close_handles ns_close s = each_join (λ f. f) (closers ns_close) s

  -- Close, after the wait for the loop.
  unfoldable pub finish_close : System → System
  unfolding close_handles
  finish_close x =
      let (es, s) = close_handles x.monitor_ns_close x.kernel in
      record x { kernel = s; close_err = some es }

  -- Where a case of the select is ready, the loop may take it.
  pub data Move : System → System → Type 0 where
    updates :
        (table : ℤ) (x : System)
        → x.loop.running ≡ true
        → x.loop.subscribed ≡ true
        → Move x (on_update table x)
    ends : (x : System) → x.loop.running ≡ true → x.loop.subscribed ≡ true → Move x (on_end x)
    expires :
        (answer : Option Failure) (delay : ℕ) (x : System)
        → x.loop.running ≡ true
        → x.loop.timer ≡ some delay
        → Move x (on_timer answer x)
    stops : (x : System) → x.loop.running ≡ true → x.done ≡ true → Move x (on_done x)
    discards : (x : System) → x.loop.draining ≡ true → Move x x
    drained : (x : System) → x.loop.draining ≡ true → Move x (on_drained x)
    applies : (c : Config) (x : System) → Move x (with_outcome (apply a c x.manager x.kernel) x)
    refreshes : (x : System) → Move x (with_outcome (refresh a x.manager x.kernel) x)
    rolls_back :
        (c : Config) (x : System) → Move x (with_outcome (rollback a c x.manager x.kernel) x)
    closes : (x : System) → x.manager.closed ≡ false → Move x (begin_close x)
    closed :
        (x : System)
        → x.manager.closed ≡ true
        → x.loop.running ≡ false
        → x.loop.draining ≡ false
        → x.close_err ≡ none
        → Move x (finish_close x)

  -- Executions, newest move last.
  pub data Moves : System → System → Type 0 where
    starts : (x : System) → Moves x x
    follows : {x y z : System} → Moves x y → Move y z → Moves x z
