-- ===== src/Killswitch/Rules.antt =====
-- killswitch/client.go: the rulesets of the callers, merged into one.
pub mod Merged
use Prim.Native.String.{String}
use Prim.Native.String.{compare as text_compare}
use text.Mathlib.Text.{◌==◌ as str_eq}
use sysnet_linux.Base.{
  ℕ, Ordering, compare, Bool, true, false, ◌||◌, List, [], ◌∷◌, ◌++◌, Option, none, some,
}
use sysnet_linux.Base.Sort.{sort}
use sysnet_linux.Base.Unseen.{unseen}

pub record AllowRules : Type 0 where
  pub allow_all : Bool
  pub enable_v4 : Bool
  pub enable_v6 : Bool
  pub allowed_marks : List String
  pub allowed_ports : List String
  pub allowed_v4_hosts : List String
  pub allowed_v6_hosts : List String
  pub allowed_v4_pairs : List String
  pub allowed_v6_pairs : List String

-- An entry of the map from ids to rulesets.
pub record Entry : Type 0 where
  pub id : ℕ
  pub rules : AllowRules

pub record MergedRuleset : Type 0 where
  pub interfaces : List String
  pub policy : AllowRules

-- The zero value, which allows nothing.
abbrev pub no_rules : AllowRules
no_rules = record {
  allow_all = false;
  enable_v4 = false;
  enable_v6 = false;
  allowed_marks = [];
  allowed_ports = [];
  allowed_v4_hosts = [];
  allowed_v6_hosts = [];
  allowed_v4_pairs = [];
  allowed_v6_pairs = [];
}

unfoldable pub unique_sorted_strings : List String → List String
unfolding unseen sort
unique_sorted_strings values = sort text_compare (unseen str_eq [] values)

unfoldable pub merge_allow_rules : AllowRules → AllowRules → AllowRules
merge_allow_rules a b = record {
  allow_all = a.allow_all || b.allow_all;
  enable_v4 = a.enable_v4 || b.enable_v4;
  enable_v6 = a.enable_v6 || b.enable_v6;
  allowed_marks = a.allowed_marks ++ b.allowed_marks;
  allowed_ports = a.allowed_ports ++ b.allowed_ports;
  allowed_v4_hosts = a.allowed_v4_hosts ++ b.allowed_v4_hosts;
  allowed_v6_hosts = a.allowed_v6_hosts ++ b.allowed_v6_hosts;
  allowed_v4_pairs = a.allowed_v4_pairs ++ b.allowed_v4_pairs;
  allowed_v6_pairs = a.allowed_v6_pairs ++ b.allowed_v6_pairs;
}

unfoldable pub normalize_allow_rules : AllowRules → AllowRules
unfolding unique_sorted_strings
normalize_allow_rules r = record r {
  allowed_marks = unique_sorted_strings r.allowed_marks;
  allowed_ports = unique_sorted_strings r.allowed_ports;
  allowed_v4_hosts = unique_sorted_strings r.allowed_v4_hosts;
  allowed_v6_hosts = unique_sorted_strings r.allowed_v6_hosts;
  allowed_v4_pairs = unique_sorted_strings r.allowed_v4_pairs;
  allowed_v6_pairs = unique_sorted_strings r.allowed_v6_pairs;
}

-- The loop over the ids.
unfoldable pub merge_entries : AllowRules → List Entry → AllowRules
unfolding merge_allow_rules
merge_entries policy [] = policy
merge_entries policy (e ∷ es) = merge_entries (merge_allow_rules policy e.rules) es

abbrev pub by_id : Entry → Entry → Ordering
by_id a b = compare a.id b.id

unfoldable pub merged_policy : List Entry → AllowRules
unfolding merge_entries normalize_allow_rules sort
merged_policy rulesets = normalize_allow_rules (merge_entries no_rules (sort by_id rulesets))

unfoldable pub merge_tmp_rulesets : List Entry → List String → Option MergedRuleset
unfolding merged_policy
merge_tmp_rulesets [] _ = none
merge_tmp_rulesets (e ∷ es) [] = none
merge_tmp_rulesets (e ∷ es) (i ∷ is) =
    some (record { interfaces = i ∷ is; policy = merged_policy (e ∷ es) })
