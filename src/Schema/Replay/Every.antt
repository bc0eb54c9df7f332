-- ===== src/Schema/Replay/Every.antt =====
-- That every statement of a migration keeps the schema in order (core/schema/ddl.py).
use ezsql.Base.{
  ℕ, String, Option, none, some, List, [], ◌∷◌, ◌++◌, ◌==◌, string_eq, ◌≡◌, refl, inl, inr,
  Bool-cases, if_lem, Option-cases,
}
use ezsql.Base.Dict
use ezsql.Base.Dict.{Dict}
use ezsql.Base.Entries.{All-set, All-get, All-remove}
use ezsql.Schema.Model.{ParserWarning, SchemaModel, SourceSpan, TableDef, ColumnDef}
use ezsql.Schema.Replay.{Sqlglot, make_span, Step, child_of, name_of, is_kind}
use ezsql.Schema.Replay.Create.{
  on_expressions, no_parts, create_in, parse_create_table, parse_column_def,
}
use ezsql.Schema.Replay.Change.{
  rename_column, renamed, drop_column, column_at, index_on, parse_create_index, alter_action,
  alter_actions, alter_known, known_table, altered_table, parse_alter_table, parse_drop_table,
  parse_drop_index, replay_statement, index_def,
}
use ezsql.Schema.Replay.Keeps.{IsKeyedTable, IsKeyed, IsSound, on_expressions-PartsOf}
use ezsql.Schema.Replay.Statements.{
  set-IsSound, add_table-IsSound, drop_table-IsSound, drop_index-IsSound, add_index-IsSound,
}

abbrev IsNamed : String → TableDef → Type 0
IsNamed table t = (t.name ≡ table) × IsKeyedTable t

rename-IsNamed :
    (table old new : String) (t : TableDef) (o : Option ColumnDef)
    → IsNamed table t
    → IsNamed table (rename_column old new t o)
rename-IsNamed table old new t none h = h
rename-IsNamed table old new t (some col) h = (
  h.0,
  (
    All-set (λ kc. kc.1.name ≡ kc.0) new (record col { name = new }) (Dict.remove old t.columns)
        refl (All-remove (λ kc. kc.1.name ≡ kc.0) old t.columns h.1.0),
    h.1.1,
  ),
)

drop_column-IsNamed :
    (table col : String) (t : TableDef) → IsNamed table t → IsNamed table (drop_column col t)
drop_column-IsNamed table col t h =
    if_lem (IsNamed table) (col == "") h
      (h.0, (All-remove (λ kc. kc.1.name ≡ kc.0) col t.columns h.1.0, h.1.1))

module _ {N : Type 0} (sqlglot : Sqlglot N) where
  renamed-IsNamed :
      (table old : String) (t : TableDef) (to : Option N)
      → IsNamed table t
      → IsNamed table (renamed sqlglot old t to)
  renamed-IsNamed table old t none h = h
  renamed-IsNamed table old t (some to) h =
      rename-IsNamed table old (sqlglot.name to) t (column_at old t) h

  action-IsNamed :
      (table : String) (span : SourceSpan) (action : N) (t : TableDef)
      → IsNamed table t
      → IsNamed table (alter_action sqlglot table span action t).0
  unfolding alter_action
  action-IsNamed table span action t h =
      let P = λ (a : TableDef × List ParserWarning). IsNamed table a.0 in
      let col = parse_column_def sqlglot action in
      if_lem P (sqlglot.isinstance "ColumnDef" action)
        (h.0, (All-set (λ kc. kc.1.name ≡ kc.0) col.name col t.columns refl h.1.0, h.1.1))
        (if_lem P (sqlglot.isinstance "Drop" action)
          (if_lem (IsNamed table) (is_kind sqlglot "COLUMN" action)
            (drop_column-IsNamed table (name_of sqlglot (sqlglot.this action)) t h) h)
          (if_lem P (sqlglot.type_name action == "Rename")
            (renamed-IsNamed table (name_of sqlglot (sqlglot.this action)) t
              (sqlglot.arg "to" action) h)
            h))

  actions-IsNamed :
      (table : String) (span : SourceSpan) (actions : List N) (t : TableDef)
      (ws : List ParserWarning)
      → IsNamed table t
      → IsNamed table (alter_actions sqlglot table span actions (t, ws)).0
  unfolding alter_actions
  actions-IsNamed table span [] t ws h = h
  actions-IsNamed table span (action ∷ actions) t ws h =
      actions-IsNamed table span actions (alter_action sqlglot table span action t).0
        (ws ++ (alter_action sqlglot table span action t).1) (action-IsNamed table span action t h)

  create_in-IsSound :
      (stmt : N) (span : SourceSpan) (s : SchemaModel) (schema_node table_node : Option N)
      → IsSound s
      → IsSound (create_in sqlglot stmt span s schema_node table_node).0
  create_in-IsSound stmt span s none table_node h = h
  create_in-IsSound stmt span s (some schema_node) none h = h
  create_in-IsSound stmt span s (some schema_node) (some table_node) h =
      let table = sqlglot.name table_node in
      add_table-IsSound table
        (on_expressions sqlglot table span (sqlglot.expressions schema_node) no_parts) s
        (on_expressions-PartsOf sqlglot table span (sqlglot.expressions schema_node) no_parts
          (tt, tt))
        h

  index_on-IsSound :
      (stmt idx : N) (s : SchemaModel) (table : Option N)
      → IsSound s
      → IsSound (index_on sqlglot stmt idx s table).0
  index_on-IsSound stmt idx s none h = h
  index_on-IsSound stmt idx s (some t) h =
      add_index-IsSound (sqlglot.name t) (index_def sqlglot stmt idx) s
        (Dict.get (sqlglot.name t) s.tables) refl h

  create_index-IsSound :
      (stmt : N) (s : SchemaModel) (i : ℕ) (file : Option String)
      → IsSound s
      → IsSound (parse_create_index sqlglot stmt s i file).0
  unfolding parse_create_index
  create_index-IsSound stmt s i file h =
      elim (Option-cases (child_of sqlglot "Index" (sqlglot.this stmt))) [
        | inl other ↦ rw (parse_create_index, other) h
        | inr index ↦ rw (parse_create_index, index.1) (index_on-IsSound stmt index.0 s _ h)
      ]

  known_lem :
      (table : String) (s : SchemaModel) {t : TableDef}
      → IsSound s
      → known_table table s ≡ some t
      → IsNamed table t
  known_lem table s h found = elim (Bool-cases (table == "")) [
    | inl empty ↦ absurd (cc (rw empty at found))
    | inr named ↦ All-get IsKeyed table s.tables h.0 (rw named at found)
  ]

  alter_known-IsSound :
      (table : String) (span : SourceSpan) (stmt : N) (s : SchemaModel) (o : Option TableDef)
      → known_table table s ≡ o
      → IsSound s
      → IsSound (alter_known sqlglot table span stmt s o).0
  alter_known-IsSound table span stmt s none e h = h
  alter_known-IsSound table span stmt s (some t) e h =
      let actions = sqlglot.args "actions" stmt in
      set-IsSound table (alter_actions sqlglot table span actions (t, [])).0 s
        (actions-IsNamed table span actions t [] (known_lem table s h e)) h

  drop-IsSound :
      (stmt : N) (s : SchemaModel) → IsSound s → IsSound (parse_drop_table sqlglot stmt s)
  unfolding parse_drop_table
  drop-IsSound stmt s h = elim (Option-cases (child_of sqlglot "Table" (sqlglot.this stmt))) [
    | inl other ↦ rw (parse_drop_table, other) h
    | inr table ↦ rw (parse_drop_table, table.1) (drop_table-IsSound (sqlglot.name table.0) s h)
  ]

  create_table-IsSound :
      (stmt : N) (s : SchemaModel) (i : ℕ) (file : Option String)
      → IsSound s
      → IsSound (parse_create_table sqlglot stmt s i file).0
  unfolding parse_create_table
  create_table-IsSound stmt s i file h = create_in-IsSound stmt (make_span i file) s _ _ h

  alter_table-IsSound :
      (stmt : N) (s : SchemaModel) (i : ℕ) (file : Option String)
      → IsSound s
      → IsSound (parse_alter_table sqlglot stmt s i file).0
  unfolding parse_alter_table
  alter_table-IsSound stmt s i file h =
      alter_known-IsSound (altered_table sqlglot (sqlglot.this stmt)) (make_span i file) stmt s _
        refl h

  drop_index_lem :
      (stmt : N) (s : SchemaModel) → IsSound s → IsSound (parse_drop_index sqlglot stmt s)
  unfolding parse_drop_index
  drop_index_lem stmt s h =
      let index = name_of sqlglot (sqlglot.this stmt) in
      if_lem IsSound (index == "") h (drop_index-IsSound index s h)

  -- Every statement keeps the schema sound: each table, column and index stays under its own
  -- name, and each foreign key belongs to a table that is there.
  pub replay_statement-IsSound :
      (stmt : N) (s : SchemaModel) (i : ℕ) (file : Option String)
      → IsSound s
      → IsSound (replay_statement sqlglot stmt s i file).0
  unfolding replay_statement
  replay_statement-IsSound stmt s i file h =
      let P = λ (x : Step). IsSound x.0 in
      if_lem P (sqlglot.isinstance "Create" stmt)
        (if_lem P (is_kind sqlglot "TABLE" stmt) (create_table-IsSound stmt s i file h)
          (if_lem P (is_kind sqlglot "INDEX" stmt) (create_index-IsSound stmt s i file h) h))
        (if_lem P (sqlglot.isinstance "Alter" stmt) (alter_table-IsSound stmt s i file h) (
          if_lem P (sqlglot.isinstance "Drop" stmt)
            (if_lem IsSound (is_kind sqlglot "TABLE" stmt) (drop-IsSound stmt s h)
              (if_lem IsSound (is_kind sqlglot "INDEX" stmt) (drop_index_lem stmt s h) h))
            (if_lem P (sqlglot.type_name stmt == "Command") h h)))
