-- ===== src/Scan.antt =====
-- core/context/scan.py: which files of a project are reported, and how they are classified. The
-- file system and the regular expressions are parameters.
pub mod Limits
use Prim.Native.String.{len}
use ezsql.Base.{
  ℕ, ◌+◌, suc, String, Bool, true, false, ◌&&◌, ◌||◌, not, Option, none, some, List, [], ◌∷◌, ◌++◌,
  map, is_in, leb, ltb, length, ◌==◌, string_eq, if◌then◌else◌, text_append, text_le, text_contains,
}
use ezsql.Base.Dict
use ezsql.Base.Dict.{Dict}
use ezsql.Base.Sorting.{sorted}
use ezsql.Schema.Repository.{default_skip_dirs, ends_with}

pub data FileClassification : Type 0 where
  migration query orm config doc unknown : FileClassification

-- A file's name, the name in lower case and its suffix; its size, `none` where `stat` raises; the
-- time of its last change; whether it counts as binary; and its text, `none` where it cannot be
-- read.
pub record ScanFile : Type 0 where
  pub name : String
  pub lower_name : String
  pub suffix : String
  pub size : Option ℕ
  pub mtime_ns : ℕ
  pub is_binary : Bool
  pub text : Option String

-- A directory: its files and the directories in it, by name. A link to a directory is not among
-- these.
mutual
  pub data Folder : Type 0 where
    folder : List ScanFile → Folders → Folder

  pub data Folders : Type 0 where
    end : Folders
    child : String → Folder → Folders → Folders

pub record ScanLimits : Type 0 where
  pub max_file_size : ℕ
  pub max_files_per_scan : ℕ
  pub max_total_bytes : ℕ
  pub max_scan_depth : ℕ

-- What a walk with a state has found.
pub record Scan (A : Type 0) : Type 0 where
  pub by_dir : Dict String (List A)
  pub files_seen : ℕ
  pub files_skipped : ℕ
  pub total_bytes_read : ℕ
  pub truncated : Bool

pub record ScanResult (A : Type 0) : Type 0 where
  pub by_dir : Dict String (List A)
  pub truncated : Bool
  pub files_skipped : ℕ

abbrev pub orm_markers : List String
orm_markers =
    "sqlalchemy" ∷ "SQLAlchemy" ∷ "prisma" ∷ "Prisma" ∷ "activerecord" ∷ "ActiveRecord" ∷ "gorm"
    ∷ "GORM" ∷ "django.db" ∷ "models.Model" ∷ "sequelize" ∷ "Sequelize" ∷ "typeorm" ∷ "TypeORM"
    ∷ "sqlmodel" ∷ "SQLModel" ∷ []

abbrev pub config_exts : List String
config_exts = ".toml" ∷ ".yaml" ∷ ".yml" ∷ ".env" ∷ ".ini" ∷ ".cfg" ∷ ".json" ∷ []

abbrev pub doc_exts : List String
doc_exts = ".md" ∷ ".rst" ∷ []

abbrev pub orm_exts : List String
orm_exts = ".py" ∷ ".ts" ∷ ".js" ∷ ".rb" ∷ ".go" ∷ ".rs" ∷ []

abbrev pub any_marker : List String → String → Bool
any_marker [] text = false
any_marker (m ∷ ms) text = text_contains m text || any_marker ms text

-- A text that is no binary's, where it can be read.
abbrev pub readable_text : ScanFile → Option String
readable_text f = if f.is_binary then none else f.text

-- `f"{rel}/{name}"`, without the point of the root.
abbrev pub beside : String → String → String
beside rel name = if rel == "." then name else text_append rel (text_append "/" name)

-- The separators in the path of a child: none for the root's own children.
abbrev pub child_depth : String → ℕ → ℕ
child_depth rel depth = if rel == "." then 0 else suc depth

-- The files with their directories, in the order of `os.walk`. A directory that is too deep has no
-- files and is not entered.
unfoldable mutual
  pub reach : (ℕ → Bool) → String → ℕ → Folder → List (String × ScanFile)
  reach too_deep rel depth (folder files folders) =
      let here = map (λ f. (rel, f)) files in
      let below = reach_all too_deep rel depth folders in
      if too_deep depth then [] else here ++ below

  pub reach_all : (ℕ → Bool) → String → ℕ → Folders → List (String × ScanFile)
  reach_all too_deep rel depth end = []
  reach_all too_deep rel depth (child name f rest) =
      let inside = reach too_deep (beside rel name) (child_depth rel depth) f in
      let after = reach_all too_deep rel depth rest in
      if is_in name default_skip_dirs then after else inside ++ after

module _ {A : Type 0} where
  abbrev pub or_nil : Option (List A) → List A
  or_nil none = []
  or_nil (some l) = l

  abbrev pub empty_scan : Scan A
  empty_scan = record {
    by_dir = [];
    files_seen = 0;
    files_skipped = 0;
    total_bytes_read = 0;
    truncated = false;
  }

  abbrev pub stop : Scan A → Scan A
  stop s = record s { truncated = true }

  abbrev pub skip : Scan A → Scan A
  skip s = record s { files_skipped = suc s.files_skipped }

  -- `by_dir.setdefault(rel, []).append(a)`, with the count of the files and the bytes.
  unfoldable pub report : String → A → ℕ → Scan A → Scan A
  report rel a bytes s = record s {
    by_dir = Dict.set rel (or_nil (Dict.get rel s.by_dir) ++ a ∷ []) s.by_dir;
    files_seen = suc s.files_seen;
    total_bytes_read = s.total_bytes_read + bytes;
  }

  -- The loop, which a limit breaks.
  unfoldable pub scan_files :
      (String × ScanFile → Scan A → Scan A) → List (String × ScanFile) → Scan A → Scan A
  scan_files step [] s = s
  scan_files step (f ∷ files) s =
      let rest = scan_files step files (step f s) in if (step f s).truncated then step f s else rest

  abbrev pub sort_values : (A → A → Bool) → Dict String (List A) → Dict String (List A)
  sort_values le = map (λ kv. (kv.0, sorted le kv.1))

  abbrev pub dir_le : String × List A → String × List A → Bool
  dir_le a b = text_le a.0 b.0

  -- `{key: sorted(names) for key, names in sorted(by_dir.items())}`
  unfoldable pub sorted_result : (A → A → Bool) → Scan A → ScanResult A
  unfolding sorted
  sorted_result le s = record {
    by_dir = sort_values le (sorted dir_le s.by_dir);
    truncated = s.truncated;
    files_skipped = s.files_skipped;
  }

-- A file with its class; the names of a directory are different, so the class never decides.
abbrev pub Classified : Type 0
Classified = String × FileClassification

abbrev pub classified_le : Classified → Classified → Bool
classified_le a b = text_le a.0 b.0

module _ (has_keyword : String → Bool) (is_migration_name : String → Bool) where
  -- A text by its keywords, and by its markers where these count.
  abbrev pub by_text : Bool → Option String → Option FileClassification
  by_text markers none = none
  by_text markers (some text) =
      if markers && any_marker orm_markers text
      then some orm
      else if has_keyword text
      then some unknown
      else none

  -- `classify_file`
  unfoldable pub classify_file : ScanFile → Option FileClassification
  unfolding ends_with is_in text_contains
  classify_file f =
      if ends_with ".sql" f.name
      then some (if is_migration_name f.name then migration else query)
      else if is_in f.suffix config_exts
      then (if text_contains "lock" f.lower_name then none else some config)
      else if is_in f.suffix doc_exts
      then some doc
      else by_text (is_in f.suffix orm_exts) (readable_text f)

  module _ (limits : ScanLimits) where
    open limits use {max_file_size, max_files_per_scan, max_total_bytes, max_scan_depth}

    -- A text of SQL by its name always has a class.
    abbrev pub reported_sql :
        String → String → Option FileClassification → Scan Classified → Scan Classified
    reported_sql rel name none s = s
    reported_sql rel name (some c) s = report rel (name, c) 0 s

    abbrev pub reported :
        String → String → ℕ → Option FileClassification → Scan Classified → Scan Classified
    reported rel name bytes none s = skip s
    reported rel name bytes (some c) s = report rel (name, c) bytes s

    -- The tests on a file of known size.
    abbrev pub scan_sized : String → ScanFile → Option ℕ → Scan Classified → Scan Classified
    scan_sized rel f none s = skip s
    scan_sized rel f (some size) s =
        if ends_with ".sql" f.name
        then reported_sql rel f.name (classify_file f) s
        else if ltb max_file_size size
        then skip s
        else if ltb max_total_bytes (s.total_bytes_read + size)
        then stop s
        else reported rel f.name size (classify_file f) s

    -- The body of the loop of `scan_with_classification`.
    unfoldable pub scan_file : String × ScanFile → Scan Classified → Scan Classified
    unfolding classify_file report
    scan_file f s =
        if leb max_files_per_scan s.files_seen
        then stop s
        else if is_in f.1.name default_skip_dirs
        then s
        else scan_sized f.0 f.1 f.1.size s

    unfoldable pub scan_with_classification : Folder → ScanResult Classified
    unfolding scan_file scan_files reach sorted_result
    scan_with_classification root =
        sorted_result classified_le
          (scan_files scan_file (reach (leb max_scan_depth) "." 0 root) empty_scan)

    -- The same of `deepsearchsql`, which reports names and counts the bytes of every text.
    abbrev pub search_text : String → String → Option String → Scan String → Scan String
    search_text rel name none s = skip s
    search_text rel name (some text) s =
        if has_keyword text
        then report rel name (len text) s
        else skip (record s { total_bytes_read = s.total_bytes_read + len text })

    abbrev pub search_sized : String → ScanFile → Option ℕ → Scan String → Scan String
    search_sized rel f none s = s
    search_sized rel f (some size) s =
        if ends_with ".sql" f.name
        then report rel f.name 0 s
        else if ltb max_file_size size
        then skip s
        else if ltb max_total_bytes (s.total_bytes_read + size)
        then stop s
        else search_text rel f.name (readable_text f) s

    unfoldable pub search_file : String × ScanFile → Scan String → Scan String
    unfolding report
    search_file f s =
        if leb max_files_per_scan s.files_seen
        then stop s
        else if is_in f.1.name default_skip_dirs
        then s
        else search_sized f.0 f.1 f.1.size s

    unfoldable pub deepsearchsql : Folder → ScanResult String
    unfolding search_file scan_files reach sorted_result
    deepsearchsql root =
        sorted_result text_le
          (scan_files search_file (reach (leb max_scan_depth) "." 0 root) empty_scan)

  -- A file's entry in the manifest: its path, the time of its change and its size.
  abbrev pub Stamp : Type 0
  Stamp = ℕ × ℕ

  abbrev pub is_relevant : Option String → Bool
  is_relevant none = false
  is_relevant (some text) = has_keyword text || any_marker orm_markers text

  abbrev pub stamped : String → ScanFile → Option ℕ → Dict String Stamp → Dict String Stamp
  stamped rel f none manifest = manifest
  stamped rel f (some size) manifest =
      if ends_with ".sql" f.name || not (ltb 1048576 size) && is_relevant (readable_text f)
      then Dict.set (beside rel f.name) (f.mtime_ns, size) manifest
      else manifest

  unfoldable pub stamp_files : List (String × ScanFile) → Dict String Stamp → Dict String Stamp
  unfolding ends_with text_contains
  stamp_files [] manifest = manifest
  stamp_files (f ∷ files) manifest =
      stamp_files files
        (if is_in f.1.name default_skip_dirs then manifest else stamped f.0 f.1 f.1.size manifest)

  -- `build_file_manifest`, which goes to any depth.
  unfoldable pub build_file_manifest : Folder → Dict String Stamp
  unfolding stamp_files reach
  build_file_manifest root = stamp_files (reach (λ depth. false) "." 0 root) []
