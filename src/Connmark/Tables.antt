-- ===== src/Connmark/Tables.antt =====
-- What Apply of connmark/connmark.go leaves in the kernel.
use Prim.Native.String.{String}
use sysnet_linux.Base.{
  ◌≡◌, refl, sym, ap, ◌∙◌, ◌⊎◌, inl, inr, true, false, List, [], ◌∷◌, ◌++◌, Option, none, some,
  Result, ok, err, any, Bool-cases, Result-cases, arith,
}
use sysnet_linux.Connmark.{
  Manager, Outcome, rule_commands, apply_commands, delete_listed, rollback_locked, flushed, install,
  apply, deleted, listed, after_rollback,
}
use sysnet_linux.Connmark.Marks.{Mark, normalize_marks}
use sysnet_linux.Connmark.Conn.{
  Connection, ConnectionLaws, Command, Contents, Expr, run_commands, output, prerouting,
  connmark_table, table_eq, Table, save_mark_exprs, restore_mark_exprs,
}

-- The rules of the loop, by chain.
unfoldable pub mark_rules : List Mark → List (String × List Expr)
unfolding save_mark_exprs restore_mark_exprs
mark_rules [] = []
mark_rules (m ∷ ms) =
    (output.name, save_mark_exprs m) ∷ (prerouting.name, restore_mark_exprs m) ∷ mark_rules ms

-- The table of a list of selectors: none for no selector.
abbrev pub table_of : List Mark → Option Contents
table_of [] = none
table_of (m ∷ ms) = some (record { chains = output ∷ prerouting ∷ []; rules = mark_rules (m ∷ ms) })

append_nil : {A : Type 0} (xs : List A) → xs ++ [] ≡ xs
append_nil [] = refl
append_nil (x ∷ xs) = ap (λ t. x ∷ t) (append_nil xs)

append_assoc : {A : Type 0} (xs ys zs : List A) → (xs ++ ys) ++ zs ≡ xs ++ (ys ++ zs)
append_assoc [] ys zs = refl
append_assoc (x ∷ xs) ys zs = ap (λ t. x ∷ t) (append_assoc xs ys zs)

rule_commands-add :
    (ms : List Mark) (k : Contents)
    → run_commands (rule_commands ms) (some k)
      ≡ some (record k { rules = k.rules ++ mark_rules ms })
unfolding rule_commands mark_rules
rule_commands-add [] k = ap (λ r. some (record k { rules = r })) (sym (append_nil k.rules))
rule_commands-add (m ∷ ms) k =
    rule_commands-add ms _
    ∙ ap (λ r. some (record k { rules = r }))
        (append_assoc (k.rules ++ (output.name, save_mark_exprs m) ∷ []) _ _
          ∙ append_assoc k.rules _ _)

apply_commands-table :
    (m : Mark) (ms : List Mark) → run_commands (apply_commands (m ∷ ms)) none ≡ table_of (m ∷ ms)
unfolding apply_commands
apply_commands-table m ms =
    rule_commands-add (m ∷ ms) (record { chains = output ∷ prerouting ∷ []; rules = [] })

module _ (c : Connection) (laws : ConnectionLaws c) where
  open laws use {own_table}

  -- A rollback that succeeds leaves no table; one that fails leaves it as it was.
  abbrev RolledBack : c.State → Outcome c → Type 0
  RolledBack s (none, m, s') = own_table s' ≡ none
  RolledBack s (some e, m, s') = own_table s' ≡ own_table s

  flush_deletes :
      (m : Manager) (s : c.State) (o : Option c.Failure × c.State)
      → o ≡ c.flush (Command.delete_table connmark_table ∷ []) s
      → RolledBack s (deleted c m o)
  flush_deletes m s (none, s') h =
      ap (λ q. own_table q.1) h
      ∙ laws.flush_runs (Command.delete_table connmark_table ∷ []) s (sym (ap (λ q. q.0) h))
  flush_deletes m s (some e, s') h =
      ap (λ q. own_table q.1) h
      ∙ laws.flush_fails (Command.delete_table connmark_table ∷ []) s
          (λ n. absurd (ground (arith, ap (λ q. q.0) h)))

  delete_listed-RolledBack :
      (m : Manager) (ts : List Table) (s : c.State)
      → (any (table_eq connmark_table) ts ≡ false → own_table s ≡ none)
      → RolledBack s (delete_listed c m ts s)
  unfolding delete_listed
  delete_listed-RolledBack m ts s h = elim (Bool-cases (any (table_eq connmark_table) ts)) [
    | inl e ↦ rw (e, delete_listed) (flush_deletes m s _ refl)
    | inr e ↦ rw (e, delete_listed) (h e)
  ]

  listed-RolledBack :
      (m : Manager) (s : c.State) (o : Result c.Failure (List Table) × c.State)
      → o ≡ c.list_tables s
      → RolledBack s (listed c m o)
  listed-RolledBack m s (err e, s') h = ap (λ q. own_table q.1) h ∙ laws.list_keeps s
  listed-RolledBack m s (ok ts, s') h =
      RolledBack-back s s' (kept s s' ts h) (delete_listed c m ts s') (
        delete_listed-RolledBack m ts s'
          (λ n. kept s s' ts h ∙ laws.list_absent s ts (sym (ap (λ q. q.0) h)) n))
    where
      kept :
          (s s' : c.State) (ts : List Table)
          → Path (Result c.Failure (List Table) × c.State) (ok ts, s') (c.list_tables s)
          → own_table s' ≡ own_table s
      kept s s' ts h = ap (λ q. own_table q.1) h ∙ laws.list_keeps s

      RolledBack-back :
          (s s' : c.State)
          → own_table s' ≡ own_table s
          → (o : Outcome c) → RolledBack s' o
          → RolledBack s o
      RolledBack-back s s' k (none, m, t) r = r
      RolledBack-back s s' k (some e, m, t) r = r ∙ k

  -- With a connection, a rollback does what it says.
  rollback_locked-RolledBack :
      (m : Manager) (s : c.State) → m.connected ≡ true → RolledBack s (rollback_locked c m s)
  unfolding rollback_locked
  rollback_locked-RolledBack m s h =
      simp (h, rollback_locked) (listed-RolledBack m s (c.list_tables s) refl)

  -- The table is that of the selectors on success, and the one before or none on an error.
  abbrev Replaced : List Mark → c.State → Outcome c → Type 0
  Replaced out s (none, m, s') = own_table s' ≡ table_of out
  Replaced out s (some e, m, s') = (own_table s' ≡ own_table s) ⊎ (own_table s' ≡ none)

  flushed-Replaced :
      (k : Mark) (ks : List Mark) (m : Manager) (s : c.State)
      → m.connected ≡ true
      → own_table s ≡ none
      → (o : Option c.Failure × c.State) → o ≡ c.flush (apply_commands (k ∷ ks)) s
      → Replaced (k ∷ ks) s (flushed c m o)
  unfolding flushed
  flushed-Replaced k ks m s n h (none, s') e =
      ap (λ q. own_table q.1) e
      ∙ laws.flush_runs (apply_commands (k ∷ ks)) s (sym (ap (λ q. q.0) e))
      ∙ ap (run_commands (apply_commands (k ∷ ks))) h
      ∙ apply_commands-table k ks
  flushed-Replaced k ks m s n h (some x, s') e =
      inr (gone (rollback_locked c m s') (rollback_locked-RolledBack m s' n))
    where
      failed : own_table s' ≡ none
      failed =
          ap (λ q. own_table q.1) e
          ∙ laws.flush_fails (apply_commands (k ∷ ks)) s
              (λ z. absurd (ground (arith, ap (λ q. q.0) e)))
          ∙ h

      gone : (o : Outcome c) → RolledBack s' o → own_table o.2 ≡ none
      gone (none, m', t) r = r
      gone (some y, m', t) r = r ∙ failed

  install-Replaced :
      (out : List Mark) (m : Manager) (s : c.State)
      → m.connected ≡ true
      → own_table s ≡ none
      → Replaced out s (install c out m s)
  unfolding install
  install-Replaced [] m s n h = h
  install-Replaced (k ∷ ks) m s n h = flushed-Replaced k ks m s n h _ refl

  deleted-connected :
      (m : Manager) (o : Option c.Failure × c.State) → (deleted c m o).1.connected ≡ m.connected
  deleted-connected m (none, s) = refl
  deleted-connected m (some e, s) = refl

  listed-connected :
      (m : Manager) (o : Result c.Failure (List Table) × c.State)
      → (listed c m o).1.connected ≡ m.connected
  unfolding delete_listed
  listed-connected m (err e, s) = refl
  listed-connected m (ok ts, s) = elim (Bool-cases (any (table_eq connmark_table) ts)) [
    | inl e ↦ rw (e, delete_listed) (deleted-connected m _)
    | inr e ↦ rw (e, delete_listed) refl
  ]

  rollback_locked-connected :
      (m : Manager) (s : c.State) → m.connected ≡ true → (rollback_locked c m s).1.connected ≡ true
  unfolding rollback_locked
  rollback_locked-connected m s h =
      simp (h, rollback_locked) (listed-connected m (c.list_tables s) ∙ h)

  after_rollback-Replaced :
      (out : List Mark) (s : c.State) (o : Outcome c)
      → RolledBack s o
      → o.1.connected ≡ true
      → Replaced out s (after_rollback c out o)
  after_rollback-Replaced out s (some e, m, s') r n = inl r
  after_rollback-Replaced out s (none, m, s') r n =
      weaken (install c out m s') (install-Replaced out m s' n r)
    where
      weaken : (o : Outcome c) → Replaced out s' o → Replaced out s o
      weaken (none, m', t) q = q
      weaken (some e, m', t) (inl q) = inr (q ∙ r)
      weaken (some e, m', t) (inr q) = inr q

  -- What Apply leaves, by what the normalization of its selectors says.
  abbrev pub Applied : List Mark → c.State → Outcome c → Type 0
  Applied marks s (none, m, s') =
      (out : List Mark) × (normalize_marks marks ≡ ok out) × (own_table s' ≡ table_of out)
  Applied marks s (some e, m, s') = (own_table s' ≡ own_table s) ⊎ (own_table s' ≡ none)

  Applied-of_Replaced :
      (marks out : List Mark) (s : c.State) (o : Outcome c)
      → normalize_marks marks ≡ ok out
      → Replaced out s o
      → Applied marks s o
  Applied-of_Replaced marks out s (none, m, s') e r = (out, e, r)
  Applied-of_Replaced marks out s (some x, m, s') e r = r

  -- Given the laws of the connection, Apply is all or nothing: on success the package's table holds
  -- exactly the two chains and the two rules of each normalized selector, in order, or is absent
  -- when there is no selector; on every error it is as it was or absent.
  pub apply-Applied :
      (marks : List Mark) (m : Manager) (s : c.State) → Applied marks s (apply c marks m s)
  unfolding apply
  apply-Applied marks m s = elim (Bool-cases m.connected) [
    | inr h ↦ simp (h, apply) (inl refl)
    | inl h ↦ elim (Result-cases (normalize_marks marks)) [
      | inr (e, q) ↦ simp (h, q, apply) (inl refl)
      | inl (out, q) ↦
          simp (h, q, apply)
            (Applied-of_Replaced marks out s (after_rollback c out (rollback_locked c m s)) q (
              after_rollback-Replaced out s (rollback_locked c m s)
                (rollback_locked-RolledBack m s h) (rollback_locked-connected m s h)))
    ]
  ]
