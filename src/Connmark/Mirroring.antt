-- ===== src/Connmark/Mirroring.antt =====
-- The packets that pass the chains that Apply of connmark/connmark.go has put into the kernel.
use mathlib.Core.List.{Memᴰ}
use Prim.Native.String.{String}
use text.Mathlib.Text.{◌==◌ as str_eq}
use sysnet_linux.Base.{
  keep_if, ◌≡◌, refl, ap, ◌∙◌, inr, true, List, [], ◌∷◌, map, Option, none, some, arith,
}
use sysnet_linux.Connmark.{Manager, Outcome, apply}
use sysnet_linux.Connmark.Marks.{Mark}
use sysnet_linux.Connmark.Selected.{normalized-AreApart}
use sysnet_linux.Connmark.Packets.{Packet, run_chain, selects, save_rules, restore_rules, mirrored}
use sysnet_linux.Connmark.Conn.{
  Connection, ConnectionLaws, Contents, Expr, output, prerouting, save_mark_exprs,
  restore_mark_exprs,
}
use sysnet_linux.Connmark.Tables.{table_of, mark_rules, Applied, apply-Applied}

-- The rules of a chain, by its name.
abbrev pub chain_rules : String → Option Contents → List (List Expr)
chain_rules name none = []
chain_rules name (some k) = map (λ r. r.1) (keep_if (λ r. str_eq r.0 name) k.rules)

output_rules : (ms : List Mark) → chain_rules output.name (table_of ms) ≡ save_rules ms
unfolding mark_rules
output_rules [] = refl
output_rules (m ∷ []) = refl
output_rules (m ∷ k ∷ ms) = ap (λ r. save_mark_exprs m ∷ r) (output_rules (k ∷ ms))

prerouting_rules : (ms : List Mark) → chain_rules prerouting.name (table_of ms) ≡ restore_rules ms
unfolding mark_rules
prerouting_rules [] = refl
prerouting_rules (m ∷ []) = refl
prerouting_rules (m ∷ k ∷ ms) = ap (λ r. restore_mark_exprs m ∷ r) (prerouting_rules (k ∷ ms))

module _ (c : Connection) (laws : ConnectionLaws c) (marks : List Mark) (m : Manager)
    (s : c.State) where
  open laws use {own_table}

  mirrors_of :
      (o : Outcome c)
      → Applied c laws marks s o
      → o.0 ≡ none
      → (k : Mark) (p reply : Packet) → Memᴰ k marks
      → selects k p.mark ≡ true
      → reply.connection ≡ (run_chain (chain_rules output.name (own_table o.2)) p).connection
      → (run_chain (chain_rules prerouting.name (own_table o.2)) reply).mark ≡ k.value
  mirrors_of (some e, m', t) a n k p reply l h q = absurd (ground arith)
  mirrors_of (none, m', t) (out, e, g) n k p reply l h q =
      ap (λ r. (run_chain r reply).mark) (ap (chain_rules prerouting.name) g ∙ prerouting_rules out)
      ∙ mirrored out k p reply (normalized-AreApart marks out e).2
          (((normalized-AreApart marks out e).0 k).1 (inr l)) h
          (q
            ∙ ap (λ r. (run_chain r p).connection)
                (ap (chain_rules output.name) g ∙ output_rules out))

  -- Given the laws of the connection, after an Apply without error, when a selector takes the mark
  -- of a packet that passes the output chain of the package's table, a packet of the same
  -- connection that passes the prerouting chain gets the value of that selector as its mark.
  pub apply_mirrors :
      (apply c marks m s).0 ≡ none
      → (k : Mark) (p reply : Packet) → Memᴰ k marks
      → selects k p.mark ≡ true
      → reply.connection
        ≡ (run_chain (chain_rules output.name (own_table (apply c marks m s).2)) p).connection
      → (run_chain (chain_rules prerouting.name (own_table (apply c marks m s).2)) reply).mark
        ≡ k.value
  apply_mirrors = mirrors_of (apply c marks m s) (apply-Applied c laws marks m s)
