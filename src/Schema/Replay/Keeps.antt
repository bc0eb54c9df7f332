-- ===== src/Schema/Replay/Keeps.antt =====
-- What is in order in a schema, and that CREATE TABLE gathers such parts (core/schema/ddl.py).
use ezsql.Base.{
  String, Bool, true, false, Option, none, some, List, [], ◌∷◌, ◌==◌, string_eq, ◌≡◌, refl, arith,
  if_lem, All, All-append,
}
use ezsql.Base.Dict
use ezsql.Base.Dict.{Dict}
use ezsql.Base.Entries.{All-set}
use ezsql.Schema.Model.{SchemaModel, SourceSpan, ForeignKeyDef, TableDef, ColumnDef}
use ezsql.Schema.Replay.{Sqlglot, is_a}
use ezsql.Schema.Replay.Create.{
  Parts, add_key, when, parse_reference, key_from, parse_table_fk, on_constraint, on_constraints,
  on_expression, on_expressions, parse_column_def, add_column,
}

-- Every column and every index is stored under its own name.
abbrev pub IsKeyedTable : TableDef → Type 0
IsKeyedTable t = All (λ kc. kc.1.name ≡ kc.0) t.columns × All (λ ki. ki.1.name ≡ ki.0) t.indexes

abbrev pub IsKeyed : String × TableDef → Type 0
IsKeyed kt = (kt.1.name ≡ kt.0) × IsKeyedTable kt.1

-- Every table stands under its own name, and so do its columns and indexes; and the table
-- that a foreign key belongs to is there.
abbrev pub IsSound : SchemaModel → Type 0
IsSound s =
    All IsKeyed s.tables × All (λ fk. Dict.has fk.source_table s.tables ≡ true) s.foreign_keys

abbrev pub PartsOf : String → Parts → Type 0
PartsOf table p =
    All (λ kc. kc.1.name ≡ kc.0) p.columns × All (λ fk. fk.source_table ≡ table) p.foreign_keys

module _ {N : Type 0} (sqlglot : Sqlglot N) where
  key_from_lem :
      (table : String) (columns : List String) (ref target : Option N) {fk : ForeignKeyDef}
      → key_from sqlglot table columns ref target ≡ some fk
      → fk.source_table ≡ table
  key_from_lem table columns none target h = absurd (cc h)
  key_from_lem table columns (some r) none h = absurd (cc h)
  key_from_lem table columns (some r) (some t) {fk} h = ground (arith, h)

  add_key-PartsOf :
      (table : String) (columns : ForeignKeyDef → List String) (o : Option ForeignKeyDef)
      (p : Parts)
      → ((fk : ForeignKeyDef) → o ≡ some fk → fk.source_table ≡ table)
      → PartsOf table p
      → PartsOf table (add_key columns o p)
  add_key-PartsOf table columns none p of h = h
  add_key-PartsOf table columns (some fk) p of h = (
    h.0,
    All-append (λ fk. fk.source_table ≡ table) p.foreign_keys (fk ∷ []) h.1 (of fk refl, tt),
  )

  reference_lem :
      (table : String) (columns : List String) (ref : Option N) {fk : ForeignKeyDef}
      → parse_reference sqlglot table columns ref ≡ some fk
      → fk.source_table ≡ table
  unfolding parse_reference
  reference_lem table columns ref h = key_from_lem table columns _ _ h

  table_fk_lem :
      (table : String) (fk : N) {k : ForeignKeyDef}
      → parse_table_fk sqlglot table fk ≡ some k
      → k.source_table ≡ table
  unfolding parse_table_fk
  table_fk_lem table fk h = reference_lem table _ _ h

  when-PartsOf :
      (table : String) (test : Bool) (f : Parts → Parts) (p : Parts)
      → PartsOf table p
      → PartsOf table (f p)
      → PartsOf table (when test f p)
  when-PartsOf table true f p h k = k
  when-PartsOf table false f p h k = h

  on_constraint-PartsOf :
      (table : String) (col : ColumnDef) (kind : Option N) (p : Parts)
      → PartsOf table p
      → PartsOf table (on_constraint sqlglot table col kind p)
  unfolding on_constraint
  on_constraint-PartsOf table col kind p h =
      let columns = col.name ∷ [] in
      let keyed =
        when-PartsOf table (is_a sqlglot "Reference" kind)
          (add_key (λ fk. columns) (parse_reference sqlglot table columns kind)) p h
          (add_key-PartsOf table (λ fk. columns) (parse_reference sqlglot table columns kind) p
            (λ fk e. reference_lem table columns kind e) h) in
      let primary =
        when-PartsOf table (is_a sqlglot "PrimaryKeyColumnConstraint" kind) _ _ keyed keyed in
      let not_null = when-PartsOf table (is_a sqlglot "NotNullColumnConstraint" kind) _ _ primary (
        All-set (λ kc. kc.1.name ≡ kc.0) col.name (record col { nullable = false }) _ refl
            primary.0,
        primary.1,
      ) in
      when-PartsOf table (is_a sqlglot "UniqueColumnConstraint" kind) _ _ not_null not_null

  on_constraints-PartsOf :
      (table : String) (col : ColumnDef) (cs : List N) (p : Parts)
      → PartsOf table p
      → PartsOf table (on_constraints sqlglot table col cs p)
  unfolding on_constraints
  on_constraints-PartsOf table col [] p h = h
  on_constraints-PartsOf table col (c ∷ cs) p h =
      on_constraints-PartsOf table col cs (on_constraint sqlglot table col (sqlglot.arg "kind" c) p)
        (on_constraint-PartsOf table col (sqlglot.arg "kind" c) p h)

  on_expression-PartsOf :
      (table : String) (span : SourceSpan) (e : N) (p : Parts)
      → PartsOf table p
      → PartsOf table (on_expression sqlglot table span e p)
  unfolding on_expression
  on_expression-PartsOf table span e p h =
      let col = parse_column_def sqlglot e in
      let added : PartsOf table (add_column col p) =
        (All-set (λ kc. kc.1.name ≡ kc.0) col.name col p.columns refl h.0, h.1) in
      if_lem (PartsOf table) (sqlglot.isinstance "ColumnDef" e)
        (on_constraints-PartsOf table col (sqlglot.args "constraints" e) (add_column col p) added)
        (if_lem (PartsOf table) (sqlglot.isinstance "ForeignKey" e)
          (add_key-PartsOf table (λ fk. fk.source_columns) (parse_table_fk sqlglot table e) p
            (λ fk k. table_fk_lem table e k) h)
          (if_lem (PartsOf table) (sqlglot.isinstance "PrimaryKey" e) h
            (if_lem (PartsOf table) (sqlglot.type_name e == "Unique") h h)))

  pub on_expressions-PartsOf :
      (table : String) (span : SourceSpan) (es : List N) (p : Parts)
      → PartsOf table p
      → PartsOf table (on_expressions sqlglot table span es p)
  unfolding on_expressions
  on_expressions-PartsOf table span [] p h = h
  on_expressions-PartsOf table span (e ∷ es) p h =
      on_expressions-PartsOf table span es (on_expression sqlglot table span e p)
        (on_expression-PartsOf table span e p h)
