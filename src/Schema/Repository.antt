-- ===== src/Schema/Repository.antt =====
-- core/schema/repository.py: the schema of the migrations in a repository, within bounds. The file
-- system and the cache are parameters.
pub mod Discovery
pub mod Reading
pub mod Load
use ezsql.Base.{
  ℕ, ◌+◌, String, Bool, true, false, ◌&&◌, ◌||◌, not, Option, none, some, List, [], ◌∷◌, ◌++◌, map,
  length, ltb, is_in, ◌==◌, string_eq, if◌then◌else◌, text_append, text_le,
}
use ezsql.Base.Sorting.{sorted}
use ezsql.Keys.{schema_key, text_join, manifest_text}
use ezsql.Schema.Model.{SchemaModel}
use ezsql.Schema.Ordering.{File, Ambiguity}
use ezsql.Schema.Replay.{Sqlglot}
use ezsql.Schema.Migrations.{Migrated, model, refused, parse_migrations}

-- What is asked of a file: its name and its path from the root, whether it is a link and whether
-- it resolves to a place under the root; its size and its text, `none` where reading them raises.
pub record Entry : Type 0 where
  pub name : String
  pub rel : String
  pub is_symlink : Bool
  pub is_under_root : Bool
  pub size : Option ℕ
  pub text : Option String

-- A directory with its name, its files, and the directories in it that are no links.
mutual
  pub data Directory : Type 0 where
    directory : String → List Entry → Directories → Directory

  pub data Directories : Type 0 where
    no_more : Directories
    more : Directory → Directories → Directories

pub record Bounds : Type 0 where
  pub max_schema_files : ℕ
  pub max_schema_file_bytes : ℕ
  pub max_schema_total_bytes : ℕ
  pub max_parser_warnings : ℕ

-- Why there is no schema, with what the text names.
pub data Reason : Type 0 where
  no_migration_directory too_many_files no_migration_files set_too_large : Reason
  ambiguous_roots : List String → Reason
  cannot_stat file_too_large cannot_read : String → Reason
  not_ordered : Ambiguity → Reason

pub record SchemaLoadResult : Type 0 where
  pub schema : Option SchemaModel
  pub fingerprint : String
  pub unavailable_reason : Option Reason
  pub manifest : List File
  pub cache_hit : Bool

abbrev pub unavailable : Reason → SchemaLoadResult
unavailable reason = record {
  schema = none;
  fingerprint = "";
  unavailable_reason = some reason;
  manifest = [];
  cache_hit = false;
}

abbrev pub available : SchemaModel → String → List File → Bool → SchemaLoadResult
available schema key manifest hit = record {
  schema = some schema;
  fingerprint = key;
  unavailable_reason = none;
  manifest = manifest;
  cache_hit = hit;
}

-- What a step finds, or why it does not.
pub data Found {ℓ} (A : Type ℓ) : Type ℓ where
  found : A → Found A
  missing : Reason → Found A

abbrev pub migration_dirs : List String
migration_dirs = "migrations" ∷ "db/migrations" ∷ "sql/migrations" ∷ []

abbrev pub default_skip_dirs : List String
default_skip_dirs =
    "env" ∷ ".git" ∷ "__pycache__" ∷ "node_modules" ∷ ".pytest_cache" ∷ ".ruff_cache"
    ∷ ".mypy_cache" ∷ ".venv" ∷ "venv" ∷ "dist" ∷ "build" ∷ ".tox" ∷ ".eggs" ∷ ".ezsql" ∷ []

-- `name.endswith(suffix)`
unfoldable pub ends_with : String → String → Bool
ends_with suffix String.[] = suffix == ""
ends_with suffix (String.◌∷◌ c s) = String.◌∷◌ c s == suffix || ends_with suffix s

-- The order of the names in a directory, which are different.
abbrev pub name_le : Entry → Entry → Bool
name_le e f = text_le e.name f.name

-- The files in the order of `os.walk`, whose skipped directories are pruned.
unfoldable mutual
  unfolding sorted

  pub os_walk : Directory → List Entry
  os_walk (directory name files subdirectories) = sorted name_le files ++ os_walk_all subdirectories

  pub os_walk_all : Directories → List Entry
  os_walk_all no_more = []
  os_walk_all (more (directory name files subdirectories) rest) =
      let here = os_walk (directory name files subdirectories) in
      let after = os_walk_all rest in if is_in name default_skip_dirs then after else here ++ after

abbrev pub is_migration : Entry → Bool
is_migration e = ends_with ".sql" e.name && (not e.is_symlink && e.is_under_root)

-- The loop over the files, with those so far.
unfoldable pub collect : ℕ → List Entry → List Entry → Found (List Entry)
unfolding ends_with
collect max_files [] files = found files
collect max_files (e ∷ entries) files =
    let skipped = collect max_files entries files in
    let added = collect max_files entries (files ++ e ∷ []) in
    if is_migration e
    then (if ltb max_files (length (files ++ e ∷ [])) then missing too_many_files else added)
    else skipped

-- The roots that are there, with their names.
abbrev pub populated : (String → Option Directory) → List String → List (String × Directory)
populated at [] = []
populated at (rel ∷ rels) = elim (at rel) [
  | none ↦ populated at rels
  | some d ↦ (rel, d) ∷ populated at rels
]

abbrev pub from_roots : Bounds → List (String × Directory) → Found (List Entry)
from_roots bounds [] = missing no_migration_directory
from_roots bounds (d ∷ []) = collect bounds.max_schema_files (os_walk d.1) []
from_roots bounds (d ∷ (d' ∷ ds)) = missing (ambiguous_roots (map (λ r. r.0) (d ∷ (d' ∷ ds))))

-- `_discover_migration_files`; `at` has the directory at a path that is one and is no link.
unfoldable pub discover_migration_files : Bounds → (String → Option Directory) → Found (List Entry)
unfolding os_walk collect
discover_migration_files bounds at = from_roots bounds (populated at migration_dirs)

abbrev pub read_text : Entry → Option String → Found String
read_text e none = missing (cannot_read e.name)
read_text e (some text) = found text

abbrev pub add_file : Entry → Found String → Found (List File) → Found (List File)
add_file e (missing r) rest = missing r
add_file e (found text) (missing r) = missing r
add_file e (found text) (found manifest) = found ((e.rel, text) ∷ manifest)

-- The tests on the size of a file; `rest` reads the other files, after so many bytes.
abbrev pub with_size : Bounds → ℕ → Entry → (ℕ → Found (List File)) → Option ℕ → Found (List File)
with_size bounds total e rest none = missing (cannot_stat e.name)
with_size bounds total e rest (some size) =
    if ltb bounds.max_schema_file_bytes size
    then missing (file_too_large e.name)
    else if ltb bounds.max_schema_total_bytes (total + size)
    then missing set_too_large
    else add_file e (read_text e e.text) (rest (total + size))

-- The loop that reads the files, with the bytes so far.
unfoldable pub read_files : Bounds → ℕ → List Entry → Found (List File)
read_files bounds total [] = found []
read_files bounds total (e ∷ entries) =
    with_size bounds total e (λ t. read_files bounds t entries) e.size

-- The result, and what is put into the cache, where there is one.
abbrev pub Load : Type 0
Load = SchemaLoadResult × List (String × SchemaModel)

module _ {N : Type 0} (sqlglot : Sqlglot N) (parse : String → Option (List N))
    (is_decimal : ℕ → Bool) (digest : ℕ → String → String) (version : Option String) where
  abbrev pub parsed : String → List File → Migrated → Load
  parsed key manifest (model s) = (available s key manifest false, (key, s) ∷ [])
  parsed key manifest (refused a) = (unavailable (not_ordered a), [])

  abbrev pub with_cached : Bounds → String → List File → Option SchemaModel → Load
  with_cached bounds key manifest (some s) = (available s key manifest true, [])
  with_cached bounds key manifest none =
      parsed key manifest
        (parse_migrations sqlglot parse is_decimal bounds.max_parser_warnings manifest)

  abbrev pub with_manifest : Bounds → (String → Option SchemaModel) → List File → Load
  with_manifest bounds cached manifest =
      let key = schema_key digest version manifest in with_cached bounds key manifest (cached key)

  abbrev pub with_read : Bounds → (String → Option SchemaModel) → Found (List File) → Load
  with_read bounds cached (missing r) = (unavailable r, [])
  with_read bounds cached (found manifest) = with_manifest bounds cached manifest

  abbrev pub with_files : Bounds → (String → Option SchemaModel) → Found (List Entry) → Load
  with_files bounds cached (missing r) = (unavailable r, [])
  with_files bounds cached (found []) = (unavailable no_migration_files, [])
  with_files bounds cached (found (e ∷ files)) =
      with_read bounds cached (read_files bounds 0 (e ∷ files))

  -- `cached` is what the cache gives for a key, `none` everywhere where there is no cache.
  unfoldable pub load_repo_schema :
      Bounds → (String → Option Directory) → (String → Option SchemaModel) → Load
  unfolding discover_migration_files read_files
  load_repo_schema bounds at cached = with_files bounds cached (discover_migration_files bounds at)

-- `fingerprint_manifest`, of which the digest is taken in the same way.
unfoldable pub fingerprint_manifest : (ℕ → String → String) → List File → String
unfolding manifest_text
fingerprint_manifest digest manifest = digest 16 (manifest_text digest none manifest)
