-- ===== src/Routing/Examples/Policies.antt =====
-- The theorems on the compiled policy, used at the sample.
use mathlib.Core.List.{Memᴰ}
use sysnet_linux.Base.{none, ℤ, eq_ℤ, ◌≡◌, refl, ◌⊎◌, ◌↔◌, Bool, true, false, All, ok, ◌∙◌, arith}
use sysnet_linux.Routing.Unix.{af_inet, rt_table_main}
use sysnet_linux.Routing.Config.{
  mode_exclude, mode_include, non_strict, family_enabled, effective_tunnel_families,
}
use sysnet_linux.Routing.Compiler.{
  DesiredState, compile_desired_state, desired_state, compile_rules, safe_table_route,
}
use sysnet_linux.Routing.Compiler.Priorities.{IsAscending, IsOwnPriority, compile_rules-priorities}
use sysnet_linux.Routing.Compiler.Routes.{
  IsSafeCopy, IsGatewayLast, compiled_safe_routes, compiled_install_order, valid_compiles,
}
use sysnet_linux.Routing.Policy.{
  via, unreachable, undecided, decide, policy, selects, has_app_mark, has_user_mark,
}
use sysnet_linux.Routing.Policy.Decision.{decide-compile_desired_state}
use sysnet_linux.Routing.Safe.{classify_safe_route, route_safe}
use sysnet_linux.Routing.Safe.Laws.{IsSafe, classify_safe_route_iff}
use sysnet_linux.Routing.Policy.Leaks.{main_table_traffic, strict_traffic}
use sysnet_linux.Routing.Config.Valid.{validate_iff, IsValidConfig}
use sysnet_linux.Routing.Config.{validate}
use sysnet_linux.Routing.Examples.Sample.{
  sample, strict_sample, sample_validates, sample-IsValid, strict_sample_validates, host,
  local_route, plain_packet, user_packet,
}

-- A host whose main table has a route for the packet, but whose safe and VPN tables have none.
abbrev main_only : ℤ → Bool
main_only table = eq_ℤ table rt_table_main

abbrev sample_state : DesiredState
sample_state = desired_state sample host

sample_compiles : compile_desired_state sample host ≡ ok sample_state
sample_compiles = valid_compiles sample host sample_validates

abbrev strict_state : DesiredState
strict_state = desired_state strict_sample host

strict_sample_compiles : compile_desired_state strict_sample host ≡ ok strict_state
strict_sample_compiles = valid_compiles strict_sample host strict_sample_validates

inet_covered : family_enabled sample.families af_inet ≡ true
unfolding family_enabled
inet_covered = refl

plain_foreign : has_app_mark sample plain_packet ≡ false
unfolding selects
plain_foreign = refl

plain_decided : decide main_only plain_packet sample_state.rules ≡ via rt_table_main
unfolding policy selects family_enabled effective_tunnel_families
plain_decided =
    decide-compile_desired_state sample host main_only plain_packet sample_compiles (omega arith)
      inet_covered
    ∙ refl

plain_undecided : decide (λ t. false) plain_packet sample_state.rules ≡ undecided
unfolding policy selects family_enabled effective_tunnel_families
plain_undecided =
    decide-compile_desired_state sample host (λ t. false) plain_packet sample_compiles (omega arith)
      inet_covered
    ∙ refl

validate_iff_example : (validate sample ≡ none) ↔ IsValidConfig sample
validate_iff_example = validate_iff sample

decide-compile_desired_state_example :
    decide main_only user_packet sample_state.rules ≡ policy sample main_only user_packet
decide-compile_desired_state_example =
    decide-compile_desired_state sample host main_only user_packet sample_compiles (omega arith)
      inet_covered

main_table_traffic_example :
    (sample.strictness ≡ non_strict)
    × (family_enabled (effective_tunnel_families sample) af_inet ≡ true)
    × (((sample.mode ≡ mode_exclude) × (has_user_mark sample plain_packet ≡ true))
        ⊎ ((sample.mode ≡ mode_include) × (has_user_mark sample plain_packet ≡ false)))
main_table_traffic_example =
    main_table_traffic sample host main_only plain_packet sample_compiles inet_covered plain_foreign
      (omega arith) plain_decided

strict_traffic_example :
    (decide main_only plain_packet strict_state.rules ≡ via strict_sample.vpn_table)
    ⊎ (decide main_only plain_packet strict_state.rules ≡ unreachable)
strict_traffic_example =
    strict_traffic strict_sample host main_only plain_packet strict_sample_compiles inet_covered
      plain_foreign refl

user_selected : has_user_mark sample user_packet ≡ true
unfolding selects
user_selected = refl

compile_rules-priorities_example :
    IsAscending (compile_rules sample af_inet)
    × All (λ r. IsOwnPriority sample r.priority) (compile_rules sample af_inet)
compile_rules-priorities_example =
    compile_rules-priorities sample sample-IsValid (omega arith) af_inet

compiled_safe_routes_example :
    Memᴰ (safe_table_route local_route sample.safe_table) sample_state.safe_routes
    ↔ IsSafeCopy sample host (safe_table_route local_route sample.safe_table)
compiled_safe_routes_example =
    compiled_safe_routes sample host (safe_table_route local_route sample.safe_table)
      sample_compiles

compiled_install_order_example : IsGatewayLast sample_state.safe_routes
compiled_install_order_example = compiled_install_order sample host sample_compiles

classify_safe_route_iff_example :
    (classify_safe_route local_route sample.tun_index ≡ route_safe)
    ↔ IsSafe sample.tun_index local_route
classify_safe_route_iff_example = classify_safe_route_iff local_route sample.tun_index
