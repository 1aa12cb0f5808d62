-- ===== src/Connmark/Examples.antt =====
-- The theorems on connection marks, used at two selectors and a connection in memory.
use mathlib.Core.List.{Memᴰ}
use sysnet_linux.Base.{
  ◌≡◌, ◌∙◌, refl, ap, ◌↔◌, All, true, false, List, [], ◌∷◌, Option, none, some, Result, ok,
  ok-injective, any, arith,
}
use sysnet_linux.Connmark.{Manager, apply, rollback_locked, install}
use sysnet_linux.Connmark.Marks.{Mark, normalize_marks}
use sysnet_linux.Connmark.Selected.{normalize_marks_iff, HasMask, OverlapOnlySelf}
use sysnet_linux.Connmark.Packets.{Packet, run_chain, selects}
use sysnet_linux.Connmark.Conn.{
  Connection, ConnectionLaws, Contents, Table, connmark_table, table_eq, run_commands, output,
  prerouting,
}
use sysnet_linux.Connmark.Tables.{Applied, apply-Applied}
use sysnet_linux.Connmark.Mirroring.{chain_rules, apply_mirrors}

abbrev tables_with : Option Contents → List Table
tables_with none = []
tables_with (some k) = connmark_table ∷ []

-- A kernel that holds only the package's table.
abbrev memory : Connection
memory = record {
  State = Option Contents;
  Failure = Unit;
  list_tables = λ s. (ok (tables_with s), s);
  flush = λ cs s. (none, run_commands cs s);
}

absent : (s : Option Contents) → any (table_eq connmark_table) (tables_with s) ≡ false → s ≡ none
unfolding table_eq
absent none h = refl
absent (some k) h = absurd (ground arith)

listed :
    (s : Option Contents) (ts : List Table)
    → Path (Result (Unit {0}) (List Table)) (ok (tables_with s)) (ok ts)
    → any (table_eq connmark_table) ts ≡ false
    → s ≡ none
unfolding table_eq
listed s ts e h = absent s (ap (any (table_eq connmark_table)) (ok-injective e) ∙ h)

abbrev memory_laws : ConnectionLaws memory
memory_laws = record {
  own_table = λ s. s;
  flush_runs = λ cs s h. refl;
  flush_fails = λ cs s h. absurd (h refl);
  list_keeps = λ s. refl;
  list_absent = listed;
}

abbrev low : Mark
low = record { value = 1; mask = 0xff }

abbrev other : Mark
other = record { value = 2; mask = 0xff }

abbrev two : List Mark
two = low ∷ other ∷ low ∷ []

abbrev fresh : Manager
fresh = record { connected = true; applied = false }

two_normalized : normalize_marks two ≡ ok (low ∷ other ∷ [])
unfolding normalize_marks
two_normalized = refl

normalize_marks_iff_example :
    ((r : List Mark) × (normalize_marks two ≡ ok r)) ↔ (All HasMask two × OverlapOnlySelf two)
normalize_marks_iff_example = normalize_marks_iff two

apply-Applied_example : Applied memory memory_laws two none (apply memory two fresh none)
apply-Applied_example = apply-Applied memory memory_laws two fresh none

two_applied : (apply memory two fresh none).0 ≡ none
unfolding apply normalize_marks rollback_locked install
two_applied = refl

abbrev leaving : Packet
leaving = record { mark = 0x7701; connection = 0 }

abbrev arriving : Packet
arriving = record { mark = 0; connection = 1 }

low-selects : selects low leaving.mark ≡ true
unfolding selects
low-selects = refl

same_connection :
    arriving.connection
    ≡ (run_chain
        (chain_rules output.name (memory_laws.own_table (apply memory two fresh none).2))
        leaving).connection
unfolding run_chain apply normalize_marks rollback_locked install
same_connection = refl

apply_mirrors_example :
    (run_chain
      (chain_rules prerouting.name (memory_laws.own_table (apply memory two fresh none).2))
      arriving).mark
    ≡ 1
apply_mirrors_example =
    apply_mirrors memory memory_laws two fresh none two_applied low leaving arriving
      (Memᴰ.head refl) low-selects same_connection
