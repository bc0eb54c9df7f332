-- ===== src/Schema/Model.antt =====
-- core/schema/model.py: the schema and the warnings of its parser.
pub mod Graph
use ezsql.Base.{ℕ, String, Bool, not, Option, none, some, List, [], ◌∷◌, ◌++◌, is_nil, string_eq}
use ezsql.Base.Dict
use ezsql.Base.Dict.{Dict}

pub data SchemaCapability : Type 0 where
  column_enumeration column_type index_enumeration index_structure : SchemaCapability
  constraint_enumeration fk_structure table_existence : SchemaCapability

pub record SourceSpan : Type 0 where
  pub statement_index : ℕ
  pub start_line : ℕ
  pub start_col : ℕ
  pub end_line : ℕ
  pub end_col : ℕ
  pub file : Option String

pub record ForeignKeyDef : Type 0 where
  pub constraint_name : Option String
  pub source_table : String
  pub source_columns : List String
  pub target_table : String
  pub target_columns : List String

-- The kinds of a warning; `unsupported` has the class of the statement, which the text gives in
-- lower case.
pub data WarningKind : Type 0 where
  unsupported_create_variant unsupported_table_expression alter_unknown_table : WarningKind
  unsupported_alter_action unsupported_index_variant parse_failure : WarningKind
  unsupported : String → WarningKind

-- What the message of a warning quotes stands as `quoted`.
pub record ParserWarning : Type 0 where
  pub kind : WarningKind
  pub location : SourceSpan
  pub object_name : Option String
  pub quoted : String
  pub affects_schema_completeness : Bool
  pub compromised_capabilities : List SchemaCapability

-- `_validate_completeness`
unfoldable pub validate_completeness : ParserWarning → ParserWarning
validate_completeness w = record w {
  affects_schema_completeness = not (is_nil w.compromised_capabilities);
}

pub record ColumnDef : Type 0 where
  pub name : String
  pub data_type : String
  pub nullable : Bool
  pub raw_default : Option String

pub record IndexDef : Type 0 where
  pub name : String
  pub columns : List String
  pub unique : Bool
  pub is_partial : Bool
  pub is_expression : Bool
  pub raw_definition : Option String

pub data ConstraintType : Type 0 where
  primary_key foreign_key unique check not_null : ConstraintType

pub record ConstraintDef : Type 0 where
  pub name : Option String
  pub type : ConstraintType
  pub columns : List String
  pub references_table : Option String
  pub references_columns : List String

pub record TableDef : Type 0 where
  pub name : String
  pub columns : Dict String ColumnDef
  pub indexes : Dict String IndexDef
  pub constraints : List ConstraintDef

-- Its `source` and its version are constants and left out.
pub record SchemaModel : Type 0 where
  pub tables : Dict String TableDef
  pub foreign_keys : List ForeignKeyDef
  pub source_files : List String
  pub parser_warnings : List ParserWarning
  pub warnings_truncated : Bool
  pub warnings_suppressed : ℕ

abbrev pub list_of : Option (List String) → List String
list_of none = []
list_of (some l) = l

-- `graph.setdefault(fk.source_table, []).append(fk.target_table)`
unfoldable pub add_edge : ForeignKeyDef → Dict String (List String) → Dict String (List String)
add_edge fk graph =
    Dict.set fk.source_table (list_of (Dict.get fk.source_table graph) ++ fk.target_table ∷ [])
      graph

unfoldable pub graph_from :
    List ForeignKeyDef → Dict String (List String) → Dict String (List String)
unfolding add_edge
graph_from [] graph = graph
graph_from (fk ∷ fks) graph = graph_from fks (add_edge fk graph)

-- `fk_graph`
unfoldable pub fk_graph : SchemaModel → Dict String (List String)
unfolding graph_from
fk_graph schema = graph_from schema.foreign_keys []
