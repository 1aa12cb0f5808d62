-- ===== src/Killswitch/Session.antt =====
-- killswitch/client.go: the connection loop (run, serveConn), the messages of a session, and all
-- interleavings of the loop with the callers and the reader, as a step relation. What the daemon
-- holds for the connection is what the session sent last.
pub mod Synced
use Prim.Native.String.{String}
use sysnet_linux.Base.{
  ℕ, ◌==◌, ◌≡◌, ◌≢◌, Bool, true, false, List, Option, none, some, suc, zero, if◌then◌else◌,
}
use sysnet_linux.Killswitch.Rules.{AllowRules, MergedRuleset, merge_tmp_rulesets}
use sysnet_linux.Killswitch.Client.{
  Client, new_client, create_tmp_ruleset, update_tmp_ruleset, delete_tmp_ruleset, close, snapshot,
  reset_interfaces, set_interfaces,
}

-- The messages of the daemon, decoded; `undecoded` is one whose payload does not decode.
pub data Message : Type 0 where
  config : List String → Message
  interfaces_event other_event : List String → Message
  mutation_result : Bool → Message
  undecoded other_message : Message

-- handleMessage.
unfoldable pub handle_message : Message → Client → Client
unfolding set_interfaces
handle_message (config interfaces) c = set_interfaces interfaces c
handle_message (interfaces_event interfaces) c = set_interfaces interfaces c
handle_message (other_event _) c = c
handle_message (mutation_result _) c = c
handle_message undecoded c = c
handle_message other_message c = c

-- Where the loop is: with no connection, before a snapshot, before the write of a version, in the
-- select, or ended.
pub data Phase : Type 0 where
  disconnected polling : Phase
  writing : ℕ → Option MergedRuleset → Phase
  waiting stopped : Phase

-- `applied_version` and `sent` are of the current connection; `sent` is the last mutation: a set of
-- a ruleset, or a removal (`some none`).
pub record System : Type 0 where
  pub client : Client
  pub phase : Phase
  pub applied_version : ℕ
  pub sent : Option (Option MergedRuleset)

abbrev pub start : System
start = record { client = new_client; phase = disconnected; applied_version = 0; sent = none }

-- What follows a snapshot in the loop of serveConn.
unfoldable pub after_snapshot : ℕ → Option (ℕ × Option (Option MergedRuleset)) → Phase
after_snapshot applied none = disconnected
after_snapshot applied (some (version, none)) = waiting
after_snapshot applied (some (version, some merged)) =
    if version == applied then waiting else writing version merged

-- The beginning of serveConn.
unfoldable pub connect : System → System
unfolding reset_interfaces
connect s = record {
  client = reset_interfaces s.client;
  phase = polling;
  applied_version = 0;
  sent = none;
}

-- The body of the loop up to the write.
unfoldable pub poll : System → System
unfolding after_snapshot snapshot
poll s = record s { phase = after_snapshot s.applied_version (snapshot s.client) }

-- The successful write, session.apply.
unfoldable pub write : ℕ → Option MergedRuleset → System → System
write version merged s = record s { phase = waiting; applied_version = version; sent = some merged }

unfoldable pub with_client : Client → System → System
with_client c s = record s { client = c }

pub data Step : System → System → Type 0 where
  creates :
      (rules : AllowRules) (s : System)
      → Step s (with_client (create_tmp_ruleset rules s.client).1 s)
  updates :
      (id : ℕ) (rules : AllowRules) (s : System)
      → Step s (with_client (update_tmp_ruleset id rules s.client).1 s)
  deletes : (id : ℕ) (s : System) → Step s (with_client (delete_tmp_ruleset id s.client).1 s)
  closes : (s : System) → Step s (with_client (close s.client) s)
  reads : (m : Message) (s : System) → Step s (with_client (handle_message m s.client) s)
  connects : (s : System) → s.phase ≡ disconnected → Step s (connect s)
  polls : (s : System) → s.phase ≡ polling → Step s (poll s)
  writes :
      (version : ℕ) (merged : Option MergedRuleset) (s : System)
      → s.phase ≡ writing version merged
      → Step s (write version merged s)
  -- A failed start, a failed write or a closed session.
  loses : (s : System) → s.phase ≢ stopped → Step s (record s { phase = disconnected })
  wakes :
      (s : System)
      → s.phase ≡ waiting
      → s.client.wake ≡ true
      → Step s (record s { client = record s.client { wake = false }; phase = polling })
  stops :
      (s : System)
      → s.phase ≡ disconnected
      → s.client.closed ≡ true
      → Step s (record s { phase = stopped })

-- Executions of a number of steps.
pub data Run : ℕ → System → Type 0 where
  starts : Run zero start
  follows : {n : ℕ} {s t : System} → Run n s → Step s t → Run (suc n) t
