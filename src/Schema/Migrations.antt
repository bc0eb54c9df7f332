-- ===== src/Schema/Migrations.antt =====
-- core/schema/ddl.py: `parse_migrations`. The parser is core/sql/parse's, as a parameter: the
-- statements of a text, `none` for an `InternalFailure`.
pub mod Sound
pub mod Warnings
use ezsql.Base.{
  ℕ, ◌+◌, ◌-◌, String, Bool, true, false, Option, none, some, List, [], ◌∷◌, ◌++◌, map, length,
  take, ltb, if◌then◌else◌,
}
use ezsql.Schema.Model.{
  SchemaCapability, column_enumeration, column_type, index_enumeration, index_structure,
  constraint_enumeration, fk_structure, table_existence, ParserWarning, SchemaModel, parse_failure,
}
use ezsql.Schema.Ordering.{File, Ambiguity, Ordered, ordered, ambiguous, order_migrations}
use ezsql.Schema.Replay.{Sqlglot, make_span, warning, Step}
use ezsql.Schema.Replay.Change.{replay_statement}

abbrev pub everything : List SchemaCapability
everything =
    column_enumeration ∷ column_type ∷ index_enumeration ∷ index_structure ∷ constraint_enumeration
    ∷ fk_structure ∷ table_existence ∷ []

abbrev pub empty_schema : List String → SchemaModel
empty_schema source_files = record {
  tables = [];
  foreign_keys = [];
  source_files = source_files;
  parser_warnings = [];
  warnings_truncated = false;
  warnings_suppressed = 0;
}

-- The schema with the warnings, cut where they are too many.
unfoldable pub truncate_warnings : ℕ → Step → SchemaModel
truncate_warnings max_parser_warnings (schema, all_warnings) =
    if ltb max_parser_warnings (length all_warnings)
    then record schema {
      warnings_truncated = true;
      warnings_suppressed = length all_warnings - max_parser_warnings;
      parser_warnings = take max_parser_warnings all_warnings;
    }
    else record schema { parser_warnings = all_warnings }

pub data Migrated : Type 0 where
  model : SchemaModel → Migrated
  refused : Ambiguity → Migrated

module _ {N : Type 0} (sqlglot : Sqlglot N) (parse : String → Option (List N)) where
  -- The loop over the statements of a file.
  unfoldable pub replay_statements : List N → ℕ → Option String → Step → Step
  unfolding replay_statement
  replay_statements [] i file s = s
  replay_statements (stmt ∷ stmts) i file (schema, warnings) =
      let (schema', more) = replay_statement sqlglot stmt schema i file in
      replay_statements stmts (i + 1) file (schema', warnings ++ more)

  abbrev pub replay_parsed : String → Step → Option (List N) → Step
  replay_parsed path (schema, warnings) none = (
    schema,
    warnings ++ warning parse_failure (make_span 0 (some path)) (some path) path everything ∷ [],
  )
  replay_parsed path s (some stmts) = replay_statements stmts 0 (some path) s

  -- The loop over the files.
  unfoldable pub replay_files : List File → Step → Step
  unfolding replay_statements
  replay_files [] s = s
  replay_files ((path, content) ∷ files) s =
      replay_files files (replay_parsed path s (parse content))

  unfoldable pub replay_ordered : ℕ → List File → SchemaModel
  unfolding replay_files truncate_warnings
  replay_ordered max_parser_warnings files =
      truncate_warnings max_parser_warnings
        (replay_files files (empty_schema (map (λ f. f.0) files), []))

  abbrev pub migrate : ℕ → Ordered → Migrated
  migrate max_parser_warnings (ordered files) = model (replay_ordered max_parser_warnings files)
  migrate max_parser_warnings (ambiguous a) = refused a

  unfoldable pub parse_migrations : (ℕ → Bool) → ℕ → List File → Migrated
  unfolding replay_ordered order_migrations
  parse_migrations is_decimal max_parser_warnings [] = model (empty_schema [])
  parse_migrations is_decimal max_parser_warnings (file ∷ files) =
      migrate max_parser_warnings (order_migrations is_decimal (file ∷ files))
