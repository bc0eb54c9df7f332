-- ===== src/Schema/Replay.antt =====
-- core/schema/ddl.py: what the statements of a migration do to the schema. The parser and its
-- trees are sqlglot's, so they are a parameter.
pub mod Create
pub mod Change
pub mod Keeps
pub mod Statements
pub mod Every
pub mod Dropped
use ezsql.Base.{
  ℕ, String, Bool, true, false, Option, none, some, List, [], ◌∷◌, ◌==◌, string_eq, if◌then◌else◌,
}
use ezsql.Base.Dict
use ezsql.Base.Dict.{Dict}
use ezsql.Schema.Model.{
  SchemaCapability, SourceSpan, WarningKind, ParserWarning, validate_completeness, ColumnDef,
  SchemaModel, ForeignKeyDef,
}

-- What the replay uses of a node: `isinstance` with a class and the class's name, the fields, and
-- the arguments by name. A name that a node does not have is the empty text, as in sqlglot.
pub record Sqlglot (N : Type 0) : Type 0 where
  pub isinstance : String → N → Bool
  pub type_name : N → String
  pub name : N → String
  pub sql : N → String
  pub this : N → Option N
  pub expressions : N → List N
  -- `args.get(key)`, as a node, and as a list, empty where it is none
  pub arg : String → N → Option N
  pub args : String → N → List N
  -- `bool(args.get(key))`
  pub flag : String → N → Bool
  -- `str(args["kind"]).upper()`, where there is one
  pub kind_upper : N → Option String
  -- `find_all(exp.Column)`
  pub columns_below : N → List N

-- `_make_span(statement_index, file=file)`
abbrev pub make_span : ℕ → Option String → SourceSpan
make_span statement_index file = record {
  statement_index = statement_index;
  start_line = 1;
  start_col = 1;
  end_line = 1;
  end_col = 1;
  file = file;
}

-- A warning that compromises the given capabilities.
abbrev pub warning :
    WarningKind → SourceSpan → Option String → String → List SchemaCapability → ParserWarning
warning kind location object_name quoted compromised = validate_completeness (record {
  kind = kind;
  location = location;
  object_name = object_name;
  quoted = quoted;
  affects_schema_completeness = false;
  compromised_capabilities = compromised;
})

-- A schema after a statement, with the statement's warnings.
abbrev pub Step : Type 0
Step = SchemaModel × List ParserWarning

module _ {N : Type 0} (sqlglot : Sqlglot N) where
  -- `isinstance` of what may be none.
  abbrev pub is_a : String → Option N → Bool
  is_a class none = false
  is_a class (some n) = sqlglot.isinstance class n

  -- `node.name if node else ""`
  abbrev pub name_of : Option N → String
  name_of none = ""
  name_of (some n) = sqlglot.name n

  abbrev pub is_kind : String → N → Bool
  is_kind kind n = elim (sqlglot.kind_upper n) [ none ↦ false | some k ↦ k == kind ]

  -- The child that is of a class, where there is one.
  abbrev pub child_of : String → Option N → Option N
  child_of class none = none
  child_of class (some n) = if sqlglot.isinstance class n then some n else none

  abbrev pub this_of : Option N → Option N
  this_of none = none
  this_of (some n) = sqlglot.this n

  abbrev pub sql_of : Option N → Option String
  sql_of none = none
  sql_of (some n) = some (sqlglot.sql n)
