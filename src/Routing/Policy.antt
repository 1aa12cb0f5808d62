-- ===== src/Routing/Policy.antt =====
-- What a list of policy rules means for a packet. The kernel goes through the rules of the packet's
-- family in order of priority, those of one priority in the order in which they were added: a rule
-- applies to the packets of its family whose mark agrees with its own under its
-- mask; a lookup decides if its table has a route for the packet, and an unreachable rule always
-- decides. Whether a table has a route for the packet is a parameter, `found`.
pub mod Order
pub mod Decision
pub mod Leaks
pub mod Guard
use Prim.Native.Nat.{Ordering, compare}
use sysnet_linux.Base.Sort.{sort}
use sysnet_linux.Base.{
  pos_part, neg_part, keep_if, ◌+◌, ℕ, ℤ, eq_ℤ, ◌==◌, bit_and, ◌≡◌, refl, ◌∙◌, sym, ap, Bool, true,
  false, not, ◌&&◌, List, [], ◌∷◌, ◌++◌, arith, if◌then◌else◌,
}
use sysnet_linux.Base.Bits.{bit_and_comm, bit_and-le}
use sysnet_linux.Routing.Unix.{rt_table_main}
use sysnet_linux.Routing.Model.{Rule, RuleAction, rule_lookup, rule_unreachable}
use sysnet_linux.Routing.Config.{
  Config, Mode, mode_exclude, mode_include, mode_other, Strictness, strict, non_strict,
  strictness_other, effective_tunnel_families, family_enabled,
}

pub record Packet : Type 0 where
  pub family : ℤ
  pub mark : ℕ

pub data Verdict : Type 0 where
  via : ℤ → Verdict
  unreachable undecided : Verdict

unfoldable pub selects : ℕ → ℕ → ℕ → Bool
selects mark mask packet_mark = bit_and packet_mark mask == bit_and mark mask

abbrev pub applies : Rule → Packet → Bool
applies r p = eq_ℤ r.family p.family && selects r.mark r.mask p.mark

abbrev pub act : RuleAction → ℤ → (ℤ → Bool) → Verdict → Verdict
act rule_unreachable table found rest = unreachable
act rule_lookup table found rest = if found table then via table else rest

-- The rules in the order of a list.
unfoldable pub decide_in_turn : (ℤ → Bool) → Packet → List Rule → Verdict
decide_in_turn found p [] = undecided
decide_in_turn found p (r ∷ rs) =
    let rest = decide_in_turn found p rs in
    if applies r p then act r.action r.table found rest else rest

abbrev pub by_priority : Rule → Rule → Ordering
by_priority r s =
    compare (pos_part r.priority + neg_part s.priority) (pos_part s.priority + neg_part r.priority)

abbrev pub is_of : ℤ → Rule → Bool
is_of family r = eq_ℤ r.family family

unfoldable pub decide : (ℤ → Bool) → Packet → List Rule → Verdict
decide found p rules = decide_in_turn found p (sort by_priority (keep_if (is_of p.family) rules))

-- A rule with no mark applies to every mark.
pub selects_all : (m : ℕ) → selects 0 0 m ≡ true
unfolding selects
selects_all m = ground (arith, bit_and_comm m 0, bit_and-le 0 m)

-- A selector applies to its own mark.
pub selects_self : (mark mask : ℕ) → selects mark mask mark ≡ true
unfolding selects
selects_self mark mask = ground arith

abbrev pub or_unreachable : (ℤ → Bool) → ℤ → Verdict
or_unreachable found table = if found table then via table else unreachable

-- The policy that a configuration asks for, by mode and strictness: `user` says whether the packet
-- has the user mark.
abbrev by_mode : Mode → Strictness → Config → (ℤ → Bool) → Bool → Verdict
by_mode mode_exclude strict c found user =
    if user then unreachable else or_unreachable found c.vpn_table
by_mode mode_exclude non_strict c found user =
    if user
    then or_unreachable found rt_table_main
    else (if found c.safe_table then via c.safe_table else or_unreachable found c.vpn_table)
by_mode mode_include strict c found user =
    if user then or_unreachable found c.vpn_table else unreachable
by_mode mode_include non_strict c found user =
    if found c.safe_table
    then via c.safe_table
    else (if user
        then or_unreachable found c.vpn_table
        else (if found rt_table_main then via rt_table_main else undecided))
by_mode _ _ c found user = undecided

abbrev pub has_app_mark : Config → Packet → Bool
has_app_mark c p = selects c.app_bypass_mark c.app_bypass_mask p.mark

abbrev pub has_user_mark : Config → Packet → Bool
has_user_mark c p = selects c.user_mark c.user_mark_mask p.mark

unfoldable pub policy : Config → (ℤ → Bool) → Packet → Verdict
policy c found p =
    if has_app_mark c p
    then or_unreachable found rt_table_main
    else (if family_enabled (effective_tunnel_families c) p.family
        then by_mode c.mode c.strictness c found (has_user_mark c p)
        else unreachable)
