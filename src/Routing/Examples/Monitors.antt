-- ===== src/Routing/Examples/Monitors.antt =====
-- The theorems on the monitor of routes, used at the sample.
use mathlib.Core.List.{Memᴰ}
use sysnet_linux.Base.{◌≡◌, refl, inl, ◌⊎◌, true, false, [], none, some}
use sysnet_linux.Routing.Unix.{af_inet, rt_table_main}
use sysnet_linux.Routing.Config.{family_constants}
use sysnet_linux.Routing.Compiler.{desired_state, transition_guard}
use sysnet_linux.Routing.Adapter.{Adapter, AdapterLaws}
use sysnet_linux.Routing.Manager.{family_guards}
use sysnet_linux.Routing.Manager.Steps.{each_until}
use sysnet_linux.Routing.Monitor.{
  System, Moves, Move, new_manager, on_update, on_end, begin_close, begin_route_change,
  refreshed_config,
}
use sysnet_linux.Routing.Monitor.Pending.{IsArmed, Moves-IsArmed, owed-IsArmed}
use sysnet_linux.Routing.Monitor.Waiting.{waiting_guarded}
use sysnet_linux.Routing.Monitor.Quiet.{closed_quiet, HasEnded}
use sysnet_linux.Routing.Examples.Sample.{sample, host}
use sysnet_linux.Routing.Examples.Kernel.{kernel, kernel-laws}

abbrev working : Adapter
working = kernel true true

abbrev laws : AdapterLaws working
laws = kernel-laws true

abbrev new_one : System working
new_one = new_manager working none []

abbrev changed : System working
changed = on_update working rt_table_main new_one

abbrev one_change : Moves working new_one changed
one_change = Moves.follows (Moves.starts new_one) (Move.updates rt_table_main new_one refl refl)

change_pending : changed.loop.pending ≡ true
unfolding on_update
change_pending = refl

changed_runs : (changed.loop.running ≡ true) × (changed.done ≡ false) × (changed.close_err ≡ none)
unfolding on_update
changed_runs = (refl, refl, refl)

Moves-IsArmed_example : IsArmed changed.loop
Moves-IsArmed_example = Moves-IsArmed working none [] one_change changed_runs.0 (inl change_pending)

owed-IsArmed_example : (changed.loop.pending ≡ true) × IsArmed changed.loop
owed-IsArmed_example = owed-IsArmed working none [] one_change refl changed_runs.0

-- The sample is applied.
abbrev following : System working
following = record new_one {
  manager = record { closed = false; applied = some (desired_state sample host) };
}

abbrev following_changed : System working
following_changed = on_update working rt_table_main following

abbrev lost : System working
lost = on_end working following_changed

following_runs :
    (following_changed.loop.running ≡ true) × (following_changed.loop.subscribed ≡ true)
unfolding on_update
following_runs = (refl, refl)

abbrev two_waits : Moves working following_changed lost
two_waits =
    Moves.follows (Moves.starts following_changed)
      (Move.ends following_changed following_runs.0 following_runs.1)

policy_followed : refreshed_config following.manager ≡ some sample
unfolding refreshed_config desired_state
policy_followed = refl

guards_added : (begin_route_change working following.manager following.kernel).0 ≡ none
unfolding begin_route_change refreshed_config desired_state each_until family_constants
guards_added = refl

a_guard : Memᴰ (transition_guard sample af_inet) (family_guards working sample)
unfolding family_constants
a_guard = Memᴰ.head refl

waiting_guarded_example : laws.Holds (transition_guard sample af_inet) lost.kernel
waiting_guarded_example =
    waiting_guarded working laws sample following two_waits policy_followed refl guards_added
      (tt, tt) (transition_guard sample af_inet) a_guard

abbrev closing : System working
closing = begin_close working new_one

is_closing :
    (closing.manager.closed ≡ true)
    × (closing.close_err ≡ none)
    × (closing.loop.running ≡ true)
    × (closing.loop.subscribed ≡ true)
unfolding begin_close
is_closing = (refl, refl, refl, refl)

-- An update that comes after Close was begun.
abbrev updated_late : System working
updated_late = on_update working rt_table_main closing

closed_quiet_example :
    ((updated_late.kernel ≡ closing.kernel) × (updated_late.close_err ≡ closing.close_err))
    ⊎ ((closing.close_err ≡ none) × HasEnded working closing updated_late)
closed_quiet_example =
    closed_quiet working
      (Moves.follows (Moves.starts closing)
        (Move.updates rt_table_main closing is_closing.2 is_closing.3))
      is_closing.0
