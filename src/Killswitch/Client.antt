-- ===== src/Killswitch/Client.antt =====
-- killswitch/client.go: the state of a Client and its operations. The mutex makes each one step; the
-- channel `wake` of capacity one is a Boolean, and `path`, `logf` and the channel `done` (closed when
-- `closed` is set) are left out.
pub mod Calls
pub mod Ids
use Prim.Native.String.{String}
use text.Mathlib.Text.{◌==◌ as str_eq}
use sysnet_linux.Base.{
  ℕ, ◌+◌, ◌-◌, ◌*◌, ◌%◌, ◌^◌, ◌==◌, ltb, Bool, true, false, not, ◌&&◌, List, [], ◌∷◌, ◌++◌, Option,
  none, some, Result, ok, err, if◌then◌else◌, keep_if, any,
}
use sysnet_linux.Killswitch.Rules.{
  AllowRules, Entry, MergedRuleset, unique_sorted_strings, merge_tmp_rulesets,
}

pub record Client : Type 0 where
  pub closed : Bool
  pub version : ℕ
  pub next_ruleset_id : ℕ
  pub rulesets : List Entry
  pub interface_names : List String
  pub interfaces_known : Bool
  pub wake : Bool

pub data ClientError : Type 0 where
  client_closed ids_exhausted : ClientError
  no_ruleset : ℕ → ClientError

-- NewClient; `next_ruleset_id` is that of the last ruleset.
abbrev pub new_client : Client
new_client = record {
  closed = false;
  version = 0;
  next_ruleset_id = 0;
  rulesets = [];
  interface_names = [];
  interfaces_known = false;
  wake = false;
}

-- The map from ids to rulesets.
unfoldable pub find : ℕ → List Entry → Option AllowRules
find id [] = none
find id (e ∷ es) = if e.id == id then some e.rules else find id es

unfoldable pub put : ℕ → AllowRules → List Entry → List Entry
put id rules [] = record { id = id; rules = rules } ∷ []
put id rules (e ∷ es) =
    let rest = put id rules es in
    if e.id == id then record { id = id; rules = rules } ∷ es else e ∷ rest

unfoldable pub delete : ℕ → List Entry → List Entry
delete id es = keep_if (λ e. not (e.id == id)) es

unfoldable pub notify : Client → Client
notify c = record c { wake = true }

unfoldable pub changed_locked : Client → Client
unfolding notify
changed_locked c = notify (record c { version = (c.version + 1) % 2 ^ 64 })

unfoldable pub create_tmp_ruleset : AllowRules → Client → Result ClientError ℕ × Client
unfolding changed_locked put
create_tmp_ruleset rules c =
    if c.closed
    then (err client_closed, c)
    else (if c.next_ruleset_id == 2 ^ 64 - 1 then (err ids_exhausted, c) else (
      ok (c.next_ruleset_id + 1),
      changed_locked (record c {
        next_ruleset_id = c.next_ruleset_id + 1;
        rulesets = put (c.next_ruleset_id + 1) rules c.rulesets;
      }),
    ))

unfoldable pub update_found :
    ℕ → AllowRules → Client → Option AllowRules → Option ClientError × Client
unfolding changed_locked put
update_found id rules c none = (some (no_ruleset id), c)
update_found id rules c (some _) =
    (none, changed_locked (record c { rulesets = put id rules c.rulesets }))

unfoldable pub update_tmp_ruleset : ℕ → AllowRules → Client → Option ClientError × Client
unfolding update_found find
update_tmp_ruleset id rules c =
    if c.closed then (some client_closed, c) else update_found id rules c (find id c.rulesets)

unfoldable pub delete_found : ℕ → Client → Option AllowRules → Option ClientError × Client
unfolding changed_locked delete
delete_found id c none = (none, c)
delete_found id c (some _) = (none, changed_locked (record c { rulesets = delete id c.rulesets }))

unfoldable pub delete_tmp_ruleset : ℕ → Client → Option ClientError × Client
unfolding delete_found find
delete_tmp_ruleset id c =
    if c.closed then (some client_closed, c) else delete_found id c (find id c.rulesets)

unfoldable pub close : Client → Client
unfolding notify
close c = if c.closed then c else notify (record c { closed = true })

unfoldable pub snapshot : Client → Option (ℕ × Option (Option MergedRuleset))
unfolding merge_tmp_rulesets
snapshot c =
    if c.closed
    then none
    else (if not c.interfaces_known
        then some (c.version, none)
        else some (c.version, some (merge_tmp_rulesets c.rulesets c.interface_names)))

unfoldable pub reset_interfaces : Client → Client
unfolding changed_locked
reset_interfaces c = changed_locked (record c { interface_names = []; interfaces_known = false })

unfoldable pub equal_strings : List String → List String → Bool
equal_strings [] [] = true
equal_strings (x ∷ xs) (y ∷ ys) = str_eq x y && equal_strings xs ys
equal_strings _ _ = false

-- The names of a message about interfaces, the empty ones left out.
unfoldable pub set_interfaces : List String → Client → Client
unfolding changed_locked equal_strings unique_sorted_strings
set_interfaces interfaces c =
    let names = unique_sorted_strings (keep_if (λ name. not (str_eq name "")) interfaces) in
    if c.closed
    then c
    else (if c.interfaces_known && equal_strings c.interface_names names
        then c
        else changed_locked (record c { interface_names = names; interfaces_known = true }))

-- A delay in seconds.
unfoldable pub next_delay : ℕ → ℕ
next_delay d = let next = d * 2 in if ltb 64 next then 64 else next
