-- ===== src/Routing/Policy/Decision.antt =====
-- The compiled rules decide each packet as the policy says.
use sysnet_linux.Base.{ℤ, ◌≡◌, inl, inr, Bool, true, arith, ok, Option-cases}
use sysnet_linux.Routing.Model.{Snapshot}
use sysnet_linux.Routing.Config.{Config, family_enabled, validate}
use sysnet_linux.Routing.Config.Valid.{IsValidConfig, validate_iff}
use sysnet_linux.Routing.Compiler.{
  DesiredState, compile_rules, compile_desired_state, desired_state,
}
use sysnet_linux.Routing.Compiler.Priorities.{HasExactBlock}
use sysnet_linux.Routing.Policy.{Packet, decide_in_turn, decide, selects_all, policy}
use sysnet_linux.Routing.Policy.Order.{decide-rules_for}

decide_in_turn-compile_rules :
    (c : Config) (found : ℤ → Bool) (p : Packet)
    → IsValidConfig c
    → decide_in_turn found p (compile_rules c p.family) ≡ policy c found p
unfolding decide_in_turn compile_rules policy
decide_in_turn-compile_rules c found p v = ground (arith, selects_all p.mark)

-- Whatever the main table holds, a successful compilation of a configuration whose priority block
-- does not wrap gives rules that, gone through by priority, decide every packet of a covered family
-- as the policy of the configuration says: by the bypass mark first, then by mode, strictness, user
-- mark and the families that the TUN carries.
pub decide-compile_desired_state :
    (c : Config) (snapshot : Snapshot) (found : ℤ → Bool) (p : Packet) {d : DesiredState}
    → compile_desired_state c snapshot ≡ ok d
    → HasExactBlock c
    → family_enabled c.families p.family ≡ true
    → decide found p d.rules ≡ policy c found p
unfolding compile_desired_state desired_state
decide-compile_desired_state c snapshot found p {d} e exact h = elim (Option-cases (validate c)) [
  | inl valid ↦
      let v = (validate_iff c).0 valid in
      ground (arith, decide-rules_for c found p v exact h, decide_in_turn-compile_rules c found p v)
  | inr (x, bad) ↦ ground arith
]
