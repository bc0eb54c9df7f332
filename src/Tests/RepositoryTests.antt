-- ===== src/Tests/RepositoryTests.antt =====
-- A repository with one migration, a file that is none, and a directory that is skipped.
use ezsql.Base.{
  ℕ, String, true, false, Option, none, some, [], ◌∷◌, ◌==◌, string_eq, is_in, ◌≡◌, refl,
  if◌then◌else◌, text_le,
}
use ezsql.Base.Sorting.{sorted, insert_sorted}
use ezsql.Schema.Model.{SchemaModel}
use ezsql.Schema.Repository.{
  Entry, Directory, directory, no_more, more, Bounds, load_repo_schema, discover_migration_files,
  found, ends_with, os_walk, read_files, unavailable, set_too_large, ambiguous_roots, populated, migration_dirs,
}
use ezsql.Schema.Repository.Load.{IsLoad, load_repo_schema-IsLoad}
use ezsql.Tests.SchemaTests.{glot, read, ascii}

run : Unit {0}
unfolding discover_migration_files load_repo_schema ends_with is_in sorted insert_sorted text_le
    os_walk read_files
run = tt

abbrev file : String → ℕ → String → Entry
file name size text = record {
  name = name;
  rel = name;
  is_symlink = false;
  is_under_root = true;
  size = some size;
  text = some text;
}

abbrev at : String → Option Directory
at path =
    if path == "migrations"
    then some (
        directory "migrations" (file "notes.md" 5 "" ∷ file "1_a.sql" 7 "create" ∷ [])
          (more (directory ".git" (file "2_b.sql" 5 "drop" ∷ []) no_more) no_more))
    else none

abbrev bounds : Bounds
bounds = record {
  max_schema_files = 2;
  max_schema_file_bytes = 10;
  max_schema_total_bytes = 20;
  max_parser_warnings = 5;
}

finds_one : discover_migration_files bounds at ≡ found (file "1_a.sql" 7 "create" ∷ [])
unfolding run
finds_one = refl

abbrev plain : ℕ → String → String
plain size s = s

abbrev no_cache : String → Option SchemaModel
no_cache key = none

too_large :
    (load_repo_schema glot read ascii plain none
      (record bounds { max_schema_total_bytes = 6 })
      at
      no_cache).0
    ≡ unavailable set_too_large
unfolding run
too_large = refl

two_roots :
    (load_repo_schema glot read ascii plain none bounds
      (λ p. some (directory p [] no_more))
      no_cache).0
    ≡ unavailable (ambiguous_roots ("migrations" ∷ "db/migrations" ∷ "sql/migrations" ∷ []))
unfolding run
two_roots = refl

load_repo_schema-IsLoad_example :
    IsLoad glot read ascii plain none bounds no_cache (populated at migration_dirs)
      (load_repo_schema glot read ascii plain none bounds at no_cache).0
load_repo_schema-IsLoad_example =
    load_repo_schema-IsLoad glot read ascii plain none bounds no_cache at
