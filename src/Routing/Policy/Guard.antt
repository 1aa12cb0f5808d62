-- ===== src/Routing/Policy/Guard.antt =====
-- What the transition guard does: it stands behind the two rules of the bypass mark and before all
-- others.
use sysnet_linux.Base.{ℤ, ◌≡◌, Bool, List, ◌∷◌, arith, if◌then◌else◌, ◌+ℤ◌, pos}
use sysnet_linux.Routing.Unix.{rt_table_main}
use sysnet_linux.Routing.Model.{Rule, rule_lookup, rule_unreachable}
use sysnet_linux.Routing.Config.{Config, rule_offset_app_main, rule_offset_app_unreachable}
use sysnet_linux.Routing.Compiler.{mark_rule, transition_guard}
use sysnet_linux.Routing.Policy.{
  Packet, unreachable, decide_in_turn, has_app_mark, or_unreachable, selects_all,
}

-- Behind the two rules of the bypass mark, the transition guard makes all traffic without that mark
-- unreachable, whatever rules follow; traffic with it uses the main table or is unreachable.
decide_in_turn-transition_guard :
    (c : Config) (found : ℤ → Bool) (p : Packet) (later : List Rule)
    → decide_in_turn found p (
        mark_rule p.family
          (c.priority_base +ℤ rule_offset_app_main)
          rule_lookup
          rt_table_main
          c.app_bypass_mark
          c.app_bypass_mask
        ∷ mark_rule p.family
            (c.priority_base +ℤ rule_offset_app_unreachable)
            rule_unreachable
            (pos 0)
            c.app_bypass_mark
            c.app_bypass_mask
        ∷ transition_guard c p.family
        ∷ later)
      ≡ (if has_app_mark c p then or_unreachable found rt_table_main else unreachable)
unfolding decide_in_turn mark_rule transition_guard
decide_in_turn-transition_guard c found p later = ground (arith, selects_all p.mark)
