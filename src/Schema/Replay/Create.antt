-- ===== src/Schema/Replay/Create.antt =====
-- core/schema/ddl.py: CREATE TABLE and CREATE INDEX, and what is not supported.
use ezsql.Base.{
  ℕ, String, Bool, true, false, Option, none, some, List, [], ◌∷◌, ◌++◌, map, select, is_nil, ◌==◌,
  string_eq, if◌then◌else◌, text_take,
}
use ezsql.Base.Dict
use ezsql.Base.Dict.{Dict}
use ezsql.Schema.Model.{
  SourceSpan, ParserWarning, ColumnDef, SchemaModel, ForeignKeyDef, ConstraintDef, ConstraintType,
  primary_key, foreign_key, unique, unsupported_create_variant, unsupported_table_expression,
}
use ezsql.Schema.Replay.{Sqlglot, make_span, warning, Step, is_a, child_of, this_of, sql_of}

-- What CREATE TABLE gathers from the expressions of the table.
pub record Parts : Type 0 where
  pub columns : Dict String ColumnDef
  pub constraints : List ConstraintDef
  pub foreign_keys : List ForeignKeyDef
  pub warnings : List ParserWarning

abbrev pub plain : ConstraintType → List String → ConstraintDef
plain type columns = record {
  name = none;
  type = type;
  columns = columns;
  references_table = none;
  references_columns = [];
}

abbrev pub referring : List String → ForeignKeyDef → ConstraintDef
referring columns fk = record {
  name = none;
  type = foreign_key;
  columns = columns;
  references_table = some fk.target_table;
  references_columns = fk.target_columns;
}

abbrev pub add_constraint : ConstraintDef → Parts → Parts
add_constraint c parts = record parts { constraints = parts.constraints ++ c ∷ [] }

-- A foreign key and the constraint on the columns that have it, where there is one.
abbrev pub add_key : (ForeignKeyDef → List String) → Option ForeignKeyDef → Parts → Parts
add_key columns none parts = parts
add_key columns (some fk) parts = record parts {
  foreign_keys = parts.foreign_keys ++ fk ∷ [];
  constraints = parts.constraints ++ referring (columns fk) fk ∷ [];
}

-- `if test: parts = f parts`
abbrev pub when : Bool → (Parts → Parts) → Parts → Parts
when true f parts = f parts
when false f parts = parts

abbrev pub add_column : ColumnDef → Parts → Parts
add_column col parts = record parts { columns = Dict.set col.name col parts.columns }

abbrev pub no_parts : Parts
no_parts = record { columns = []; constraints = []; foreign_keys = []; warnings = [] }

abbrev pub add_table : String → Parts → SchemaModel → Step
add_table table parts schema = (
  record schema {
    tables =
        Dict.set table
          (record {
            name = table;
            columns = parts.columns;
            indexes = [];
            constraints = parts.constraints;
          })
          schema.tables;
    foreign_keys = schema.foreign_keys ++ parts.foreign_keys;
  },
  parts.warnings,
)

abbrev pub text_or : String → Option String → String
text_or default none = default
text_or default (some s) = s

module _ {N : Type 0} (sqlglot : Sqlglot N) where
  -- The loop of `_parse_column_def` over the constraints.
  unfoldable pub read_constraints : List N → ColumnDef → ColumnDef
  read_constraints [] col = col
  read_constraints (c ∷ cs) col =
      let kind = sqlglot.arg "kind" c in
      let col' =
        if is_a sqlglot "NotNullColumnConstraint" kind
        then record col { nullable = false }
        else col in
      read_constraints cs (
        if is_a sqlglot "DefaultColumnConstraint" kind
        then record col' { raw_default = sql_of sqlglot kind }
        else col')

  -- `_parse_column_def`
  unfoldable pub parse_column_def : N → ColumnDef
  unfolding read_constraints
  parse_column_def col_expr = read_constraints (sqlglot.args "constraints" col_expr) (record {
    name = sqlglot.name col_expr;
    data_type = text_or "UNKNOWN" (sql_of sqlglot (sqlglot.arg "kind" col_expr));
    nullable = true;
    raw_default = none;
  })

  abbrev pub names_of : String → List N → List String
  names_of class nodes = map sqlglot.name (select (sqlglot.isinstance class) nodes)

  -- The key that a reference makes: both its `Schema` and that one's `Table` have to be there.
  abbrev pub key_from : String → List String → Option N → Option N → Option ForeignKeyDef
  key_from table columns (some ref_schema) (some target) = some (record {
    constraint_name = none;
    source_table = table;
    source_columns = columns;
    target_table = sqlglot.name target;
    target_columns = names_of "Identifier" (sqlglot.expressions ref_schema);
  })
  key_from table columns _ _ = none

  -- The common part of `_parse_column_fk` and `_parse_table_fk`.
  unfoldable pub parse_reference : String → List String → Option N → Option ForeignKeyDef
  parse_reference table columns ref =
      let ref_schema = child_of sqlglot "Schema" (this_of sqlglot ref) in
      key_from table columns ref_schema (child_of sqlglot "Table" (this_of sqlglot ref_schema))

  -- The columns, or else the identifiers, of a table's FOREIGN KEY.
  abbrev pub source_columns : N → List String
  source_columns fk =
      let columns = names_of "Column" (sqlglot.expressions fk) in
      if is_nil columns then names_of "Identifier" (sqlglot.expressions fk) else columns

  -- `_parse_table_fk`
  unfoldable pub parse_table_fk : String → N → Option ForeignKeyDef
  unfolding parse_reference
  parse_table_fk table fk =
      parse_reference table (source_columns fk)
        (child_of sqlglot "Reference" (sqlglot.arg "reference" fk))

  -- One constraint of a column.
  unfoldable pub on_constraint : String → ColumnDef → Option N → Parts → Parts
  unfolding parse_reference
  on_constraint table col kind parts =
      let columns = col.name ∷ [] in
      let p1 =
        when (is_a sqlglot "Reference" kind)
          (add_key (λ fk. columns) (parse_reference table columns kind)) parts in
      let p2 =
        when (is_a sqlglot "PrimaryKeyColumnConstraint" kind)
          (add_constraint (plain primary_key columns)) p1 in
      let p3 =
        when (is_a sqlglot "NotNullColumnConstraint" kind)
          (λ p. record p {
            columns = Dict.set col.name (record col { nullable = false }) p.columns;
          })
          p2 in
      when (is_a sqlglot "UniqueColumnConstraint" kind) (add_constraint (plain unique columns)) p3

  unfoldable pub on_constraints : String → ColumnDef → List N → Parts → Parts
  unfolding on_constraint
  on_constraints table col [] parts = parts
  on_constraints table col (c ∷ cs) parts =
      on_constraints table col cs (on_constraint table col (sqlglot.arg "kind" c) parts)

  -- One expression of the table.
  unfoldable pub on_expression : String → SourceSpan → N → Parts → Parts
  unfolding parse_column_def on_constraints parse_table_fk
  on_expression table span e parts =
      if sqlglot.isinstance "ColumnDef" e
      then on_constraints table (parse_column_def e) (sqlglot.args "constraints" e)
          (add_column (parse_column_def e) parts)
      else if sqlglot.isinstance "ForeignKey" e
      then add_key (λ fk. fk.source_columns) (parse_table_fk table e) parts
      else if sqlglot.isinstance "PrimaryKey" e
      then add_constraint (plain primary_key (map sqlglot.name (sqlglot.columns_below e))) parts
      else if sqlglot.type_name e == "Unique"
      then add_constraint (plain unique (map sqlglot.name (sqlglot.columns_below e))) parts
      else record parts {
        warnings =
            parts.warnings
            ++ warning unsupported_table_expression span (some table) (sqlglot.type_name e) [] ∷ [];
      }

  unfoldable pub on_expressions : String → SourceSpan → List N → Parts → Parts
  unfolding on_expression
  on_expressions table span [] parts = parts
  on_expressions table span (e ∷ es) parts =
      on_expressions table span es (on_expression table span e parts)

  -- `stmt.sql()[:50]`
  abbrev pub excerpt : N → String
  excerpt stmt = text_take 50 (sqlglot.sql stmt)

  abbrev pub create_in : N → SourceSpan → SchemaModel → Option N → Option N → Step
  create_in stmt span schema none table_node =
      (schema, warning unsupported_create_variant span none (excerpt stmt) [] ∷ [])
  create_in stmt span schema (some schema_node) none = (schema, [])
  create_in stmt span schema (some schema_node) (some table_node) =
      let table = sqlglot.name table_node in
      add_table table (on_expressions table span (sqlglot.expressions schema_node) no_parts) schema

  -- `_parse_create_table`
  unfoldable pub parse_create_table : N → SchemaModel → ℕ → Option String → Step
  unfolding on_expressions
  parse_create_table stmt schema statement_index file =
      let schema_node = child_of sqlglot "Schema" (sqlglot.this stmt) in
      create_in stmt (make_span statement_index file) schema schema_node
        (child_of sqlglot "Table" (this_of sqlglot schema_node))
