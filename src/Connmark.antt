-- ===== src/Connmark.antt =====
-- connmark/connmark.go: packet marks that are mirrored through conntrack marks.
pub mod Marks
pub mod Selected
pub mod Packets
pub mod Conn
pub mod Tables
pub mod Mirroring
mod Examples
use sysnet_linux.Base.{
  Bool, not, true, false, ◌&&◌, List, [], ◌∷◌, ◌++◌, Option, none, some, Result, ok, err, any,
  if◌then◌else◌,
}
use Marks.{Mark, MarkError, normalize_marks}
use Conn.{
  Connection, Command, Chain, output, prerouting, connmark_table, table_eq, Table, Expr,
  save_mark_exprs, restore_mark_exprs,
}

-- `connected` says that the connection is not nil.
pub record Manager : Type 0 where
  pub connected : Bool
  pub applied : Bool

pub data ApplyError (E : Type 0) : Type 0 where
  connection_unavailable : ApplyError E
  invalid_marks : MarkError → ApplyError E
  list_tables_failed delete_table_failed apply_rules_failed : E → ApplyError E

-- The rules that the loop of Apply adds.
unfoldable pub rule_commands : List Mark → List Command
unfolding save_mark_exprs restore_mark_exprs
rule_commands [] = []
rule_commands (m ∷ ms) =
    Command.add_rule output (save_mark_exprs m)
    ∷ Command.add_rule prerouting (restore_mark_exprs m)
    ∷ rule_commands ms

-- What Apply queues on the connection.
unfoldable pub apply_commands : List Mark → List Command
unfolding rule_commands
apply_commands ms =
    Command.add_table connmark_table
    ∷ Command.add_chain output
    ∷ Command.add_chain prerouting
    ∷ rule_commands ms

module _ (c : Connection) where
  open c use {State, Failure}

  abbrev pub Outcome : Type 0
  Outcome = Option (ApplyError Failure) × Manager × State

  -- rollbackLocked.
  abbrev deleted : Manager → Option Failure × State → Outcome
  deleted m (some e, s) = (some (delete_table_failed e), m, s)
  deleted m (none, s) = (none, record m { applied = false }, s)

  unfoldable pub delete_listed : Manager → List Table → State → Outcome
  unfolding table_eq
  delete_listed m tables s =
      if any (table_eq connmark_table) tables
      then deleted m (c.flush (Command.delete_table connmark_table ∷ []) s)
      else (none, record m { applied = false }, s)

  abbrev listed : Manager → Result Failure (List Table) × State → Outcome
  listed m (err e, s) = (some (list_tables_failed e), m, s)
  listed m (ok tables, s) = delete_listed m tables s

  unfoldable pub rollback_locked : Manager → State → Outcome
  unfolding delete_listed
  rollback_locked m s =
      if m.connected then listed m (c.list_tables s) else (none, record m { applied = false }, s)

  -- Rollback, and Close.
  unfoldable pub rollback : Manager → State → Outcome
  unfolding rollback_locked
  rollback m s = rollback_locked m s

  unfoldable pub close : Manager → Manager
  close m = record m { applied = false }

  -- Apply.
  unfoldable pub flushed : Manager → Option Failure × State → Outcome
  unfolding rollback_locked
  flushed m (none, s) = (none, record m { applied = true }, s)
  flushed m (some e, s) =
      let (e', m', s') = rollback_locked m s in (some (apply_rules_failed e), m', s')

  unfoldable pub install : List Mark → Manager → State → Outcome
  unfolding flushed apply_commands
  install [] m s = (none, record m { applied = false }, s)
  install (k ∷ ks) m s = flushed m (c.flush (apply_commands (k ∷ ks)) s)

  abbrev after_rollback : List Mark → Outcome → Outcome
  after_rollback marks (some e, m, s) = (some e, m, s)
  after_rollback marks (none, m, s) = install marks m s

  abbrev after_normalize : Manager → State → Result MarkError (List Mark) → Outcome
  after_normalize m s (err e) = (some (invalid_marks e), m, s)
  after_normalize m s (ok out) = after_rollback out (rollback_locked m s)

  unfoldable pub apply : List Mark → Manager → State → Outcome
  apply marks m s =
      if not m.connected
      then (some connection_unavailable, m, s)
      else after_normalize m s (normalize_marks marks)
