-- ===== src/Schema/Replay/Change.antt =====
-- core/schema/ddl.py: CREATE INDEX, ALTER TABLE, DROP, and the choice among the statements.
use ezsql.Base.{
  ℕ, String, Bool, true, false, ◌&&◌, ◌||◌, not, Option, none, some, List, [], ◌∷◌, ◌++◌, select,
  ◌==◌, string_eq, if◌then◌else◌,
}
use ezsql.Base.Dict
use ezsql.Base.Dict.{Dict}
use ezsql.Schema.Model.{
  SchemaCapability, column_type, SourceSpan, ParserWarning, ColumnDef, SchemaModel, ForeignKeyDef,
  TableDef, IndexDef, alter_unknown_table, unsupported_alter_action, unsupported_index_variant,
  unsupported,
}
use ezsql.Schema.Replay.{Sqlglot, make_span, warning, Step, name_of, is_kind, child_of}
use ezsql.Schema.Replay.Create.{excerpt, parse_column_def, parse_create_table}

-- A table with the warnings of its actions.
abbrev pub Altered : Type 0
Altered = TableDef × List ParserWarning

-- The columns of an index, and whether one is an expression.
abbrev pub IndexColumns : Type 0
IndexColumns = List String × Bool

-- `table_def.columns.pop(old)`, and back under the new name.
abbrev pub rename_column : String → String → TableDef → Option ColumnDef → TableDef
rename_column old new table none = table
rename_column old new table (some col) = record table {
  columns = Dict.set new (record col { name = new }) (Dict.remove old table.columns);
}

abbrev pub drop_column : String → TableDef → TableDef
drop_column col table =
    if col == "" then table else record table { columns = Dict.remove col table.columns }

-- The column of a name that is not empty.
abbrev pub column_at : String → TableDef → Option ColumnDef
column_at name table = if name == "" then none else Dict.get name table.columns

-- The foreign keys that do not refer to a table in either way.
unfoldable pub without_table : String → List ForeignKeyDef → List ForeignKeyDef
without_table table fks =
    select (λ fk. not (fk.source_table == table) && not (fk.target_table == table)) fks

abbrev pub drop_table : String → SchemaModel → SchemaModel
drop_table table schema = record schema {
  tables = Dict.remove table schema.tables;
  foreign_keys = without_table table schema.foreign_keys;
}

-- The first table that has the index loses it.
unfoldable pub drop_index_in : String → Dict String TableDef → Dict String TableDef
drop_index_in index [] = []
drop_index_in index ((key, table) ∷ tables) =
    if Dict.has index table.indexes
    then (key, record table { indexes = Dict.remove index table.indexes }) ∷ tables
    else (key, table) ∷ drop_index_in index tables

-- An index goes to its table, where that is known.
abbrev pub add_index : String → IndexDef → SchemaModel → Option TableDef → SchemaModel
add_index table index schema none = schema
add_index table index schema (some t) = record schema {
  tables =
      Dict.set table (record t { indexes = Dict.set index.name index t.indexes }) schema.tables;
}

abbrev pub known_table : String → SchemaModel → Option TableDef
known_table table schema = if table == "" then none else Dict.get table schema.tables

module _ {N : Type 0} (sqlglot : Sqlglot N) where
  -- One column of an index.
  abbrev pub index_column : Option N → IndexColumns
  index_column none = ("None" ∷ [], true)
  index_column (some inner) =
      if sqlglot.isinstance "Column" inner
      then (sqlglot.name inner ∷ [], false)
      else if sqlglot.isinstance "Func" inner
      then (sqlglot.sql inner ∷ [], true)
      else if not (sqlglot.name inner == "")
      then (sqlglot.name inner ∷ [], false)
      else (sqlglot.sql inner ∷ [], true)

  unfoldable pub index_columns : List N → IndexColumns
  index_columns [] = ([], false)
  index_columns (c ∷ cs) =
      let (first, is_expression) = index_column (sqlglot.this c) in
      let (rest, others) = index_columns cs in (first ++ rest, is_expression || others)

  abbrev pub columns_of : Option N → IndexColumns
  columns_of none = ([], false)
  columns_of (some params) = index_columns (sqlglot.args "columns" params)

  abbrev pub has_where : Option N → Bool
  has_where none = false
  has_where (some params) = elim (sqlglot.arg "where" params) [ none ↦ false | some w ↦ true ]

  abbrev pub index_def : N → N → IndexDef
  index_def stmt idx =
      let params = sqlglot.arg "params" idx in
      let (columns, is_expression) = columns_of params in
      record {
        name = sqlglot.name idx;
        columns = columns;
        unique = sqlglot.flag "unique" stmt;
        is_partial = has_where params;
        is_expression = is_expression;
        raw_definition = none;
      }

  abbrev pub index_on : N → N → SchemaModel → Option N → Step
  index_on stmt idx schema none = (schema, [])
  index_on stmt idx schema (some table_ref) =
      let table = sqlglot.name table_ref in
      (add_index table (index_def stmt idx) schema (Dict.get table schema.tables), [])

  -- `_parse_create_index`
  unfoldable pub parse_create_index : N → SchemaModel → ℕ → Option String → Step
  unfolding index_columns
  parse_create_index stmt schema statement_index file =
      elim (child_of sqlglot "Index" (sqlglot.this stmt)) [
        | none ↦ (
          schema,
          warning unsupported_index_variant (make_span statement_index file) none
                (excerpt sqlglot stmt) []
              ∷ [],
        )
        | some idx ↦ index_on stmt idx schema (child_of sqlglot "Table" (sqlglot.arg "table" idx))
      ]

  -- RENAME COLUMN to the name of a node, where there is one.
  abbrev pub renamed : String → TableDef → Option N → TableDef
  renamed old t none = t
  renamed old t (some to) = rename_column old (sqlglot.name to) t (column_at old t)

  -- One action of ALTER TABLE.
  unfoldable pub alter_action : String → SourceSpan → N → TableDef → Altered
  unfolding parse_column_def
  alter_action table span action t =
      if sqlglot.isinstance "ColumnDef" action
      then (
        record t {
          columns =
              Dict.set (parse_column_def sqlglot action).name (parse_column_def sqlglot action)
                t.columns;
        },
        [],
      )
      else if sqlglot.isinstance "Drop" action
      then (
        if is_kind sqlglot "COLUMN" action
            then drop_column (name_of sqlglot (sqlglot.this action)) t
            else t,
        [],
      )
      else if sqlglot.type_name action == "Rename"
      then (renamed (name_of sqlglot (sqlglot.this action)) t (sqlglot.arg "to" action), [])
      else (
        t,
        warning unsupported_alter_action span (some table) (sqlglot.type_name action) [] ∷ [],
      )

  unfoldable pub alter_actions : String → SourceSpan → List N → Altered → Altered
  unfolding alter_action
  alter_actions table span [] a = a
  alter_actions table span (action ∷ actions) (t, warnings) =
      let (t', more) = alter_action table span action t in
      alter_actions table span actions (t', warnings ++ more)

  -- The name of the table, given as a `Table` or as a `Schema` of one.
  abbrev pub altered_table : Option N → String
  altered_table none = ""
  altered_table (some node) =
      if sqlglot.isinstance "Table" node
      then sqlglot.name node
      else if sqlglot.isinstance "Schema" node
      then name_of sqlglot (child_of sqlglot "Table" (sqlglot.this node))
      else ""

  abbrev pub alter_known : String → SourceSpan → N → SchemaModel → Option TableDef → Step
  alter_known table span stmt schema none =
      (schema, warning alter_unknown_table span (some table) table [] ∷ [])
  alter_known table span stmt schema (some t) =
      let (t', warnings) = alter_actions table span (sqlglot.args "actions" stmt) (t, []) in
      (record schema { tables = Dict.set table t' schema.tables }, warnings)

  -- `_parse_alter_table`
  unfoldable pub parse_alter_table : N → SchemaModel → ℕ → Option String → Step
  unfolding alter_actions
  parse_alter_table stmt schema statement_index file =
      let table = altered_table (sqlglot.this stmt) in
      alter_known table (make_span statement_index file) stmt schema (known_table table schema)

  -- `_parse_drop_table`, of a statement whose kind is TABLE.
  unfoldable pub parse_drop_table : N → SchemaModel → SchemaModel
  unfolding without_table
  parse_drop_table stmt schema = elim (child_of sqlglot "Table" (sqlglot.this stmt)) [
    | none ↦ schema
    | some table ↦ drop_table (sqlglot.name table) schema
  ]

  -- `_parse_drop_index`, of a statement whose kind is INDEX.
  unfoldable pub parse_drop_index : N → SchemaModel → SchemaModel
  unfolding drop_index_in
  parse_drop_index stmt schema =
      let index = name_of sqlglot (sqlglot.this stmt) in
      if index == "" then schema else record schema { tables = drop_index_in index schema.tables }

  -- What an unsupported statement compromises.
  abbrev pub compromised : N → List SchemaCapability
  compromised stmt =
      if sqlglot.isinstance "Create" stmt && is_kind sqlglot "TYPE" stmt
      then column_type ∷ []
      else []

  -- `_parse_unsupported_ddl`
  unfoldable pub parse_unsupported_ddl : N → ℕ → Option String → ParserWarning
  parse_unsupported_ddl stmt statement_index file =
      warning (unsupported (sqlglot.type_name stmt)) (make_span statement_index file) none
        (excerpt sqlglot stmt) (compromised stmt)

  -- The body of the loop over the statements.
  unfoldable pub replay_statement : N → SchemaModel → ℕ → Option String → Step
  unfolding parse_create_table parse_create_index parse_alter_table parse_drop_table
      parse_drop_index parse_unsupported_ddl
  replay_statement stmt schema i file =
      if sqlglot.isinstance "Create" stmt
      then (if is_kind sqlglot "TABLE" stmt
          then parse_create_table sqlglot stmt schema i file
          else if is_kind sqlglot "INDEX" stmt
          then parse_create_index stmt schema i file
          else (schema, parse_unsupported_ddl stmt i file ∷ []))
      else if sqlglot.isinstance "Alter" stmt
      then parse_alter_table stmt schema i file
      else if sqlglot.isinstance "Drop" stmt
      then (
        if is_kind sqlglot "TABLE" stmt
            then parse_drop_table stmt schema
            else if is_kind sqlglot "INDEX" stmt
            then parse_drop_index stmt schema
            else schema,
        [],
      )
      else if sqlglot.type_name stmt == "Command"
      then (schema, parse_unsupported_ddl stmt i file ∷ [])
      else (schema, [])
