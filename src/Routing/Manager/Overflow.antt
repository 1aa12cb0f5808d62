-- ===== src/Routing/Manager/Overflow.antt =====
-- The end of the owned block, PriorityBase + PrioritySpan, is a wrapping sum.
use sysnet_linux.Base.{
  ℕ, ◌+◌, ◌^◌, ◌≤◌, ◌<◌, pos, negsuc, pos_part, pos-+ℤ_overflow, ◌-◌, ◌+ℤ◌, ◌≡◌, true, none, arith,
}
use sysnet_linux.Routing.Model.{Rule}
use sysnet_linux.Routing.Config.{Config, validate, effective_tunnel_families}
use sysnet_linux.Routing.Config.Valid.{IsValidConfig, validate_iff}
use sysnet_linux.Routing.Manager.Listing.{outside_block}

abbrev pub with_span : Config → ℕ → Config
with_span c span = record c { priority_span = pos span }

wrapped_end :
    (c : Config) (span : ℕ)
    → IsValidConfig c
    → pos_part c.priority_base < 2 ^ 63
    → span < 2 ^ 63
    → 2 ^ 63 ≤ pos_part c.priority_base + span
    → c.priority_base +ℤ pos span ≡ negsuc (2 ^ 64 - 1 - (pos_part c.priority_base + span))
wrapped_end c span v b h w =
    ground (arith, v.base_positive, pos-+ℤ_overflow (pos_part c.priority_base) span)

spanned :
    (c : Config) (span : ℕ)
    → IsValidConfig c
    → pos_part c.priority_base < 2 ^ 63
    → span < 2 ^ 63
    → 32 ≤ span
    → 2 ^ 63 ≤ pos_part c.priority_base + span
    → IsValidConfig (with_span c span)
unfolding effective_tunnel_families
spanned c span v b h l w = record {
  tun = v.tun;
  vpn = v.vpn;
  safe = v.safe;
  differ = v.differ;
  base_positive = v.base_positive;
  app_mask = v.app_mask;
  user_mask = v.user_mask;
  apart = v.apart;
  mode_known = v.mode_known;
  strictness_known = v.strictness_known;
  some_family = v.some_family;
  tunnel4 = v.tunnel4;
  tunnel6 = v.tunnel6;
  sources = v.sources;
  distinct = v.distinct;
  span_wide = ground arith;
  below_builtin = ground (arith, wrapped_end c span v b h w);
}

-- A valid configuration stays valid when its span is replaced by one of at least 32 with which the
-- sum passes the range of int, although the block then overlaps the built-in rules; and no rule at
-- all then counts as owned.
pub span_overflow :
    (c : Config) (span : ℕ) (r : Rule)
    → IsValidConfig c
    → pos_part c.priority_base < 2 ^ 63
    → span < 2 ^ 63
    → 32 ≤ span
    → 2 ^ 63 ≤ pos_part c.priority_base + span
    → (validate (with_span c span) ≡ none) × (outside_block (with_span c span) r ≡ true)
unfolding outside_block
span_overflow c span r v b h l w = (
  (validate_iff (with_span c span)).1 (spanned c span v b h l w),
  ground (arith, wrapped_end c span v b h w, v.base_positive),
)
