-- ===== src/Schema/Migrations/Warnings.antt =====
-- Which of the warnings the schema keeps (core/schema/ddl.py, `parse_migrations`).
use ezsql.Base.{
  ℕ, ◌+◌, String, Bool, false, Option, none, some, List, [], ◌∷◌, ◌++◌, map, length, take, ltb, ◌≡◌,
  refl, arith, subst, sym, ap, ◌∙◌, zero, suc, Option-cases, ◌==◌, string_eq, inl, inr, Bool-cases,
  if_lem, length-take,
}
use ezsql.Schema.Model.{ParserWarning, SchemaModel}
use ezsql.Schema.Ordering.{File, Ordered, ordered, ambiguous, order_migrations}
use ezsql.Schema.Replay.{Sqlglot, Step}
use ezsql.Schema.Replay.Change.{replay_statement}
use ezsql.Base.Dict
use ezsql.Base.Dict.{Dict}
use ezsql.Schema.Model.{SourceSpan, TableDef, IndexDef}
use ezsql.Schema.Replay.{is_kind, child_of, name_of, this_of, make_span}
use ezsql.Schema.Replay.Create.{create_in, parse_create_table}
use ezsql.Schema.Replay.Change.{
  add_index, index_def, index_on, parse_create_index, alter_known, known_table, altered_table,
  parse_alter_table, parse_drop_table, parse_drop_index,
}
use ezsql.Schema.Migrations.{
  empty_schema, truncate_warnings, model, replay_statements, replay_parsed, replay_files,
  replay_ordered, migrate, parse_migrations,
}

-- The schema with few warnings, against the one that has all of them.
abbrev pub IsCut : ℕ → SchemaModel → SchemaModel → Type 0
IsCut limit s full =
    (s.parser_warnings ≡ take limit full.parser_warnings)
    × (length full.parser_warnings ≡ length s.parser_warnings + s.warnings_suppressed)
    × (s.warnings_truncated ≡ ltb limit (length full.parser_warnings))
    × (s.tables ≡ full.tables)
    × (s.foreign_keys ≡ full.foreign_keys)

take-all :
    (limit : ℕ) (ws : List ParserWarning) → ltb limit (length ws) ≡ false → take limit ws ≡ ws
take-all zero [] h = refl
take-all zero (w ∷ ws) h = ground (arith, h)
take-all (suc limit) [] h = refl
take-all (suc limit) (w ∷ ws) h = ap (λ l. w ∷ l) (take-all limit ws (ground (arith, h)))

uncut_lem :
    (all : ℕ) (s : SchemaModel) (ws : List ParserWarning)
    → (truncate_warnings all (s, ws)).warnings_truncated ≡ false
    → truncate_warnings all (s, ws) ≡ record s { parser_warnings = ws }
unfolding truncate_warnings
uncut_lem all s ws h = elim (Bool-cases (ltb all (length ws))) [
  | inl many ↦ absurd (cc (rw (truncate_warnings, many) at h))
  | inr few ↦ rw (truncate_warnings, few) refl
]

-- The schema is not marked before.
cut_lem :
    (limit : ℕ) (s : SchemaModel) (ws : List ParserWarning)
    → s.warnings_truncated ≡ false
    → s.warnings_suppressed ≡ 0
    → IsCut limit (truncate_warnings limit (s, ws)) (record s { parser_warnings = ws })
unfolding truncate_warnings
cut_lem limit s ws fresh none_yet = elim (Bool-cases (ltb limit (length ws))) [
  | inl many ↦
      rw (truncate_warnings, many)
        (refl, ground (arith, many, length-take limit ws), refl, refl, refl)
  | inr few ↦
      rw (truncate_warnings, few)
        (sym (take-all limit ws few), omega (arith, none_yet), fresh, refl, refl)
]

-- No statement touches the two fields on the cut.
abbrev IsUnmarked : SchemaModel → Type 0
IsUnmarked s = (s.warnings_truncated ≡ false) × (s.warnings_suppressed ≡ 0)

add_index-IsUnmarked :
    (table : String) (index : IndexDef) (s : SchemaModel) (o : Option TableDef)
    → IsUnmarked s
    → IsUnmarked (add_index table index s o)
add_index-IsUnmarked table index s none h = h
add_index-IsUnmarked table index s (some t) h = h

module _ {N : Type 0} (sqlglot : Sqlglot N) where
  create-IsUnmarked :
      (stmt : N) (span : SourceSpan) (s : SchemaModel) (schema_node table_node : Option N)
      → IsUnmarked s
      → IsUnmarked (create_in sqlglot stmt span s schema_node table_node).0
  create-IsUnmarked stmt span s none table_node h = h
  create-IsUnmarked stmt span s (some schema_node) none h = h
  create-IsUnmarked stmt span s (some schema_node) (some table_node) h = h

  index_on-IsUnmarked :
      (stmt idx : N) (s : SchemaModel) (table : Option N)
      → IsUnmarked s
      → IsUnmarked (index_on sqlglot stmt idx s table).0
  index_on-IsUnmarked stmt idx s none h = h
  index_on-IsUnmarked stmt idx s (some t) h =
      add_index-IsUnmarked (sqlglot.name t) (index_def sqlglot stmt idx) s
        (Dict.get (sqlglot.name t) s.tables) h

  index-IsUnmarked :
      (stmt : N) (s : SchemaModel) (i : ℕ) (file : Option String)
      → IsUnmarked s
      → IsUnmarked (parse_create_index sqlglot stmt s i file).0
  unfolding parse_create_index
  index-IsUnmarked stmt s i file h =
      elim (Option-cases (child_of sqlglot "Index" (sqlglot.this stmt))) [
        | inl other ↦ rw (parse_create_index, other) h
        | inr index ↦ rw (parse_create_index, index.1) (index_on-IsUnmarked stmt index.0 s _ h)
      ]

  alter-IsUnmarked :
      (table : String) (span : SourceSpan) (stmt : N) (s : SchemaModel) (o : Option TableDef)
      → IsUnmarked s
      → IsUnmarked (alter_known sqlglot table span stmt s o).0
  alter-IsUnmarked table span stmt s none h = h
  alter-IsUnmarked table span stmt s (some t) h = h

  drop-IsUnmarked :
      (stmt : N) (s : SchemaModel) → IsUnmarked s → IsUnmarked (parse_drop_table sqlglot stmt s)
  unfolding parse_drop_table
  drop-IsUnmarked stmt s h = elim (Option-cases (child_of sqlglot "Table" (sqlglot.this stmt))) [
    | inl other ↦ rw (parse_drop_table, other) h
    | inr table ↦ rw (parse_drop_table, table.1) h
  ]

  statement-IsUnmarked :
      (stmt : N) (s : SchemaModel) (i : ℕ) (file : Option String)
      → IsUnmarked s
      → IsUnmarked (replay_statement sqlglot stmt s i file).0
  unfolding replay_statement parse_create_table parse_alter_table parse_drop_index
  statement-IsUnmarked stmt s i file h =
      let P = λ (x : Step). IsUnmarked x.0 in
      let span = make_span i file in
      let schema_node = child_of sqlglot "Schema" (sqlglot.this stmt) in
      let altered = altered_table sqlglot (sqlglot.this stmt) in
      if_lem P (sqlglot.isinstance "Create" stmt)
        (if_lem P (is_kind sqlglot "TABLE" stmt)
          (create-IsUnmarked stmt span s schema_node
            (child_of sqlglot "Table" (this_of sqlglot schema_node)) h)
          (if_lem P (is_kind sqlglot "INDEX" stmt) (index-IsUnmarked stmt s i file h) h))
        (if_lem P (sqlglot.isinstance "Alter" stmt)
          (alter-IsUnmarked altered span stmt s (known_table altered s) h)
          (if_lem P (sqlglot.isinstance "Drop" stmt)
            (if_lem IsUnmarked (is_kind sqlglot "TABLE" stmt) (drop-IsUnmarked stmt s h) (
              if_lem IsUnmarked (is_kind sqlglot "INDEX" stmt)
                (if_lem IsUnmarked (name_of sqlglot (sqlglot.this stmt) == "") h h) h))
            (if_lem P (sqlglot.type_name stmt == "Command") h h)))

module _ {N : Type 0} (sqlglot : Sqlglot N) (parse : String → Option (List N)) where
  statements-IsUnmarked :
      (stmts : List N) (i : ℕ) (file : Option String) (s : Step)
      → IsUnmarked s.0
      → IsUnmarked (replay_statements sqlglot parse stmts i file s).0
  unfolding replay_statements
  statements-IsUnmarked [] i file s h = h
  statements-IsUnmarked (stmt ∷ stmts) i file (s, ws) h =
      statements-IsUnmarked stmts (i + 1) file
        (
          (replay_statement sqlglot stmt s i file).0,
          ws ++ (replay_statement sqlglot stmt s i file).1,
        )
        (statement-IsUnmarked sqlglot stmt s i file h)

  parsed-IsUnmarked :
      (path : String) (s : Step) (o : Option (List N))
      → IsUnmarked s.0
      → IsUnmarked (replay_parsed sqlglot parse path s o).0
  parsed-IsUnmarked path (s, ws) none h = h
  parsed-IsUnmarked path s (some stmts) h = statements-IsUnmarked stmts 0 (some path) s h

  files-IsUnmarked :
      (files : List File) (s : Step)
      → IsUnmarked s.0
      → IsUnmarked (replay_files sqlglot parse files s).0
  unfolding replay_files
  files-IsUnmarked [] s h = h
  files-IsUnmarked ((path, content) ∷ files) s h =
      files-IsUnmarked files (replay_parsed sqlglot parse path s (parse content))
        (parsed-IsUnmarked path s (parse content) h)

  IsCut-truncate :
      (limit all : ℕ) (x : Step)
      → IsUnmarked x.0
      → (truncate_warnings all x).warnings_truncated ≡ false
      → IsCut limit (truncate_warnings limit x) (truncate_warnings all x)
  IsCut-truncate limit all (s, ws) h uncut =
      subst (λ full. IsCut limit (truncate_warnings limit (s, ws)) full)
        (sym (uncut_lem all s ws uncut)) (cut_lem limit s ws h.0 h.1)

  IsCut-migrate :
      (limit all : ℕ) (o : Ordered) {s full : SchemaModel}
      → migrate sqlglot parse limit o ≡ model s
      → migrate sqlglot parse all o ≡ model full
      → full.warnings_truncated ≡ false
      → IsCut limit s full
  unfolding replay_ordered
  IsCut-migrate limit all (ambiguous a) e f uncut = absurd (cc e)
  IsCut-migrate limit all (ordered files) {s} {full} e f uncut =
      let x = replay_files sqlglot parse files (empty_schema (map (λ f. f.0) files), []) in
      let same : truncate_warnings limit x ≡ s = cc e in
      let whole : truncate_warnings all x ≡ full = cc f in
      subst (λ s. IsCut limit s full) same
        (subst (IsCut limit (truncate_warnings limit x)) whole (
          IsCut-truncate limit all x
            (files-IsUnmarked files (empty_schema (map (λ f. f.0) files), []) (refl, refl))
            (ap (λ s. s.warnings_truncated) whole ∙ uncut)))

  -- The limit on the warnings changes only what is shown of them: against a run with a limit that
  -- cuts nothing, the schema has the first `limit` of the warnings and counts the others, is
  -- marked exactly when there are others, and has the same tables and foreign keys.
  pub limit_only_cuts :
      (is_decimal : ℕ → Bool) (limit all : ℕ) (files : List File) (s full : SchemaModel)
      → parse_migrations sqlglot parse is_decimal limit files ≡ model s
      → parse_migrations sqlglot parse is_decimal all files ≡ model full
      → full.warnings_truncated ≡ false
      → IsCut limit s full
  unfolding parse_migrations
  limit_only_cuts is_decimal limit all [] s full e f uncut =
      let same : empty_schema [] ≡ s = cc e in
      let whole : empty_schema [] ≡ full = cc f in
      subst (λ s. IsCut limit s full) same
        (subst (IsCut limit (empty_schema [])) whole
          (sym (take-all limit [] (ground arith)), refl, ground arith, refl, refl))
  limit_only_cuts is_decimal limit all (file ∷ files) s full e f uncut =
      IsCut-migrate limit all (order_migrations is_decimal (file ∷ files)) e f uncut
