-- ===== src/Routing/Examples/Managers.antt =====
-- The theorems on a Manager, used at the sample.
use sysnet_linux.Base.{pos, ◌≡◌, refl, true, false, List, [], ◌∷◌, none, some, ◌-◌, ◌^◌, arith}
use sysnet_linux.Routing.Unix.{af_inet}
use sysnet_linux.Routing.Model.{Rule}
use sysnet_linux.Routing.Config.{validate, family_constants}
use sysnet_linux.Routing.Compiler.{DesiredState, desired_state, transition_guard}
use sysnet_linux.Routing.Adapter.{Adapter}
use sysnet_linux.Routing.Manager.RefreshClosed.{refresh_fail_closed}
use sysnet_linux.Routing.Manager.{family_guards, Manager, apply, refresh}
use sysnet_linux.Routing.Manager.Listing.{owned_table_targets, transition_guards, outside_block}
use sysnet_linux.Routing.Manager.Steps.{
  list_main, apply_desired, apply_failed, apply_failed_guard_active, flush_table_failed,
  list_failed, install_guard, with_applied, switch_state, applied_rules,
}
use sysnet_linux.Routing.Manager.GuardLoops.{SomeGuard}
use sysnet_linux.Routing.Manager.FailClosed.{guards_of, apply_desired_fail_closed}
use sysnet_linux.Routing.Manager.Outcomes.{Installs, apply-Installs}
use sysnet_linux.Routing.Manager.Overflow.{with_span, span_overflow}
use sysnet_linux.Routing.Examples.Sample.{sample, sample-IsValid, host}
use sysnet_linux.Routing.Examples.Kernel.{kernel, kernel-laws}

abbrev working : Adapter
working = kernel true true

-- A kernel whose listings fail, and one that refuses new rules.
abbrev unlisted : Adapter
unlisted = kernel true false

abbrev refusing : Adapter
refusing = kernel false true

abbrev sample_state : DesiredState
sample_state = desired_state sample host

abbrev fresh : Manager
fresh = record { closed = false; applied = none }

abbrev running : Manager
running = record { closed = false; applied = some sample_state }

abbrev shut : Manager
shut = record { closed = true; applied = none }

abbrev sample_guards : List Rule
sample_guards = transition_guards (with_applied sample none)

listing_failed :
    (apply_desired unlisted none sample_state []).0
    ≡ some (apply_failed_guard_active (flush_table_failed (list_failed tt ∷ [])))
unfolding apply_desired desired_state transition_guards with_applied family_constants
    transition_guard switch_state applied_rules owned_table_targets
listing_failed = refl

guard_refused :
    (apply_desired refusing none sample_state []).0 ≡ some (apply_failed (install_guard tt))
unfolding apply_desired desired_state transition_guards with_applied family_constants
guard_refused = refl

apply_desired_fail_closed_example :
    SomeGuard unlisted
      (kernel-laws false)
      (guards_of unlisted (kernel-laws false) none sample_state)
      (apply_desired unlisted none sample_state []).1
apply_desired_fail_closed_example =
    apply_desired_fail_closed unlisted (kernel-laws false) none sample_state [] listing_failed

first_guard :
    transition_guards (with_applied sample none)
    ≡ transition_guard sample af_inet ∷ transition_guard sample (pos 10) ∷ []
unfolding transition_guards with_applied family_constants transition_guard
first_guard = refl

apply-Installs_example : Installs working fresh sample (apply working sample fresh [])
apply-Installs_example = apply-Installs working sample fresh []

-- The guard of the sample, which its own block holds, is outside of the block with the huge span.
span_overflow_example :
    (validate (with_span sample (2 ^ 63 - 1)) ≡ none)
    × (outside_block (with_span sample (2 ^ 63 - 1)) (transition_guard sample af_inet) ≡ true)
span_overflow_example =
    span_overflow sample (2 ^ 63 - 1) (transition_guard sample af_inet) sample-IsValid (omega arith)
      (omega arith) (omega arith) (omega arith)

main_unlisted : (refresh unlisted running []).0 ≡ some (apply_failed_guard_active (list_main tt))
unfolding refresh desired_state family_constants
main_unlisted = refl

refresh_fail_closed_example :
    SomeGuard unlisted
      (kernel-laws false)
      (family_guards unlisted sample_state.config)
      (refresh unlisted running []).2
refresh_fail_closed_example =
    refresh_fail_closed unlisted (kernel-laws false) running sample_state [] refl refl main_unlisted
