-- ===== src/Connmark/Conn.antt =====
-- The nftables connection that connmark/connmark.go uses: the commands that it queues, the
-- expressions of its rules, and the interface. A uint32 in a register is the number.
use sysnet_linux.Base.{
  ℕ, Bool, true, false, ◌&&◌, List, [], ◌∷◌, ◌++◌, Option, none, some, Result, ok, bit_and, any,
  ◌≡◌, ◌≢◌, ℤ, pos, negsuc, ◌+ℤ◌,
}
use Prim.Native.String.{String}
use text.Mathlib.Text.{◌==◌ as str_eq}
use sysnet_linux.Connmark.Marks.{Mark}

-- A key of the packet or of its connection.
pub data Key : Type 0 where
  meta_mark ct_mark : Key

-- expr.Meta and expr.Ct, with SourceRegister false or true, expr.Bitwise and expr.Cmp for equality
-- on four bytes, and expr.Immediate.
pub data Expr : Type 0 where
  load store : Key → ℕ → Expr
  bitwise : ℕ → ℕ → ℕ → ℕ → Expr
  cmp_eq : ℕ → ℕ → Expr
  immediate : ℕ → ℕ → Expr

-- matchMarkExprs.
unfoldable pub match_mark_exprs : Expr → Mark → List Expr
match_mark_exprs first m =
    first ∷ Expr.bitwise 1 1 m.mask 0 ∷ Expr.cmp_eq 1 (bit_and m.value m.mask) ∷ []

abbrev immediate_mark : ℕ → Expr
immediate_mark = Expr.immediate 1

unfoldable pub set_ct_mark_exprs : ℕ → List Expr
set_ct_mark_exprs value = immediate_mark value ∷ Expr.store ct_mark 1 ∷ []

unfoldable pub set_meta_mark_exprs : ℕ → List Expr
set_meta_mark_exprs value = immediate_mark value ∷ Expr.store meta_mark 1 ∷ []

unfoldable pub save_mark_exprs : Mark → List Expr
unfolding match_mark_exprs set_ct_mark_exprs
save_mark_exprs m = match_mark_exprs (Expr.load meta_mark 1) m ++ set_ct_mark_exprs m.value

unfoldable pub restore_mark_exprs : Mark → List Expr
unfolding match_mark_exprs set_meta_mark_exprs
restore_mark_exprs m = match_mark_exprs (Expr.load ct_mark 1) m ++ set_meta_mark_exprs m.value

pub data TableFamily : Type 0 where
  inet other_family : TableFamily

pub record Table : Type 0 where
  pub name : String
  pub family : TableFamily

abbrev family_eq : TableFamily → TableFamily → Bool
family_eq inet inet = true
family_eq other_family other_family = true
family_eq _ _ = false

unfoldable pub table_eq : Table → Table → Bool
table_eq a b = str_eq b.name a.name && family_eq b.family a.family

abbrev pub connmark_table : Table
connmark_table = record { name = "sysnet_linux_connmark"; family = inet }

pub data Hook : Type 0 where
  output_hook prerouting_hook : Hook

pub data ChainType : Type 0 where
  route_type filter_type : ChainType

-- Both chains have the policy accept.
pub record Chain : Type 0 where
  pub name : String
  pub table : Table
  pub hook : Hook
  pub priority : ℤ
  pub chain_type : ChainType

-- NF_IP_PRI_MANGLE and NF_IP_PRI_CONNTRACK of Linux.
abbrev chain_priority_mangle : ℤ
chain_priority_mangle = negsuc 149

abbrev chain_priority_conntrack : ℤ
chain_priority_conntrack = negsuc 199

abbrev pub output : Chain
output = record {
  name = "output";
  table = connmark_table;
  hook = output_hook;
  priority = chain_priority_mangle;
  chain_type = route_type;
}

abbrev pub prerouting : Chain
prerouting = record {
  name = "prerouting";
  table = connmark_table;
  hook = prerouting_hook;
  priority = chain_priority_conntrack +ℤ pos 1;
  chain_type = filter_type;
}

pub data Command : Type 0 where
  add_table delete_table : Table → Command
  add_chain : Chain → Command
  add_rule : Chain → List Expr → Command

-- The connection: a listing of the tables of the family inet, and a flush of the queued commands.
pub record Connection : Type 1 where
  pub State : Type 0
  pub Failure : Type 0
  pub list_tables : State → Result Failure (List Table) × State
  pub flush : List Command → State → Option Failure × State

-- What the kernel holds of a table: its chains, and its rules with the names of their chains.
pub record Contents : Type 0 where
  pub chains : List Chain
  pub rules : List (String × List Expr)

-- What a batch of commands on the package's table means.
abbrev pub run_command : Command → Option Contents → Option Contents
run_command (Command.add_table t) none = some (record { chains = []; rules = [] })
run_command (Command.add_table t) (some k) = some k
run_command (Command.delete_table t) k = none
run_command (Command.add_chain c) none = none
run_command (Command.add_chain c) (some k) = some (record k { chains = k.chains ++ c ∷ [] })
run_command (Command.add_rule c es) none = none
run_command (Command.add_rule c es) (some k) =
    some (record k { rules = k.rules ++ (c.name, es) ∷ [] })

abbrev pub run_commands : List Command → Option Contents → Option Contents
run_commands [] k = k
run_commands (c ∷ cs) k = run_commands cs (run_command c k)

-- What the package relies on: a flush is one transaction, so that a failed one changes nothing, and
-- a listing tells whether the table is there.
pub record ConnectionLaws (c : Connection) : Type 1 where
  pub own_table : c.State → Option Contents
  pub flush_runs :
      (cs : List Command) (s : c.State)
      → (c.flush cs s).0 ≡ none
      → own_table (c.flush cs s).1 ≡ run_commands cs (own_table s)
  pub flush_fails :
      (cs : List Command) (s : c.State)
      → (c.flush cs s).0 ≢ none
      → own_table (c.flush cs s).1 ≡ own_table s
  pub list_keeps : (s : c.State) → own_table (c.list_tables s).1 ≡ own_table s
  pub list_absent :
      (s : c.State) (ts : List Table)
      → (c.list_tables s).0 ≡ ok ts
      → any (table_eq connmark_table) ts ≡ false
      → own_table s ≡ none
