-- ===== src/Schema/Migrations/Sound.antt =====
-- What the schema of the migrations is, and which of its warnings it keeps (core/schema/ddl.py).
use ezsql.Base.{
  ℕ, ◌+◌, String, Bool, Option, none, some, List, [], ◌∷◌, ◌++◌, map, length, ltb, ◌≡◌, subst,
  if_lem,
}
use ezsql.Schema.Model.{SchemaModel}
use ezsql.Schema.Ordering.{File, Ordered, ordered, ambiguous, order_migrations}
use ezsql.Schema.Replay.{Sqlglot, Step}
use ezsql.Schema.Replay.Keeps.{IsSound}
use ezsql.Schema.Replay.Every.{replay_statement-IsSound}
use ezsql.Schema.Replay.Change.{replay_statement}
use ezsql.Schema.Migrations.{
  empty_schema, truncate_warnings, Migrated, model, refused, replay_statements, replay_parsed,
  replay_files, replay_ordered, migrate, parse_migrations,
}

truncate-IsSound : (limit : ℕ) (s : Step) → IsSound s.0 → IsSound (truncate_warnings limit s)
unfolding truncate_warnings
truncate-IsSound limit (s, ws) h = if_lem IsSound (ltb limit (length ws)) h h

abbrev IsSoundModel : Migrated → Type 0
IsSoundModel (model s) = IsSound s
IsSoundModel (refused a) = Unit

module _ {N : Type 0} (sqlglot : Sqlglot N) (parse : String → Option (List N)) where
  statements-IsSound :
      (stmts : List N) (i : ℕ) (file : Option String) (s : Step)
      → IsSound s.0
      → IsSound (replay_statements sqlglot parse stmts i file s).0
  unfolding replay_statements
  statements-IsSound [] i file s h = h
  statements-IsSound (stmt ∷ stmts) i file (s, ws) h =
      statements-IsSound stmts (i + 1) file
        (
          (replay_statement sqlglot stmt s i file).0,
          ws ++ (replay_statement sqlglot stmt s i file).1,
        )
        (replay_statement-IsSound sqlglot stmt s i file h)

  parsed-IsSound :
      (path : String) (s : Step) (o : Option (List N))
      → IsSound s.0
      → IsSound (replay_parsed sqlglot parse path s o).0
  parsed-IsSound path (s, ws) none h = h
  parsed-IsSound path s (some stmts) h = statements-IsSound stmts 0 (some path) s h

  files-IsSound :
      (files : List File) (s : Step) → IsSound s.0 → IsSound (replay_files sqlglot parse files s).0
  unfolding replay_files
  files-IsSound [] s h = h
  files-IsSound ((path, content) ∷ files) s h =
      files-IsSound files (replay_parsed sqlglot parse path s (parse content))
        (parsed-IsSound path s (parse content) h)

  ordered-IsSound :
      (limit : ℕ) (files : List File) → IsSound (replay_ordered sqlglot parse limit files)
  unfolding replay_ordered
  ordered-IsSound limit files =
      truncate-IsSound limit
        (replay_files sqlglot parse files (empty_schema (map (λ f. f.0) files), []))
        (files-IsSound files (empty_schema (map (λ f. f.0) files), []) (tt, tt))

  migrate-IsSound : (limit : ℕ) (o : Ordered) → IsSoundModel (migrate sqlglot parse limit o)
  migrate-IsSound limit (ordered files) = ordered-IsSound limit files
  migrate-IsSound limit (ambiguous a) = tt

  -- Whatever the migrations say, the schema they give is sound: each table, column and index
  -- stands under its own name, and each foreign key belongs to a table that is there.
  pub parse_migrations-IsSound :
      (is_decimal : ℕ → Bool) (limit : ℕ) (files : List File) (s : SchemaModel)
      → parse_migrations sqlglot parse is_decimal limit files ≡ model s
      → IsSound s
  unfolding parse_migrations
  parse_migrations-IsSound is_decimal limit [] s h = subst IsSoundModel h (tt, tt)
  parse_migrations-IsSound is_decimal limit (file ∷ files) s h =
      subst IsSoundModel h (migrate-IsSound limit (order_migrations is_decimal (file ∷ files)))
