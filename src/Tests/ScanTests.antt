-- ===== src/Tests/ScanTests.antt =====
-- A project with two directories, one of which is skipped.
use ezsql.Base.{
  ◌≤◌, String, Bool, true, false, none, some, [], ◌∷◌, is_in, leb, ◌==◌, string_eq, ◌≡◌, ◌⊎◌, refl,
  text_append, text_le, text_contains,
}
use ezsql.Base.Dict
use ezsql.Base.Dict.{Dict}
use ezsql.Base.Sorting.{sorted, insert_sorted}
use ezsql.Schema.Repository.{ends_with}
use ezsql.Scan.{
  migration, query, doc, ScanFile, Folder, folder, end, child, ScanLimits, classify_file, scan_file,
  scan_files, scan_with_classification, build_file_manifest, deepsearchsql, reach, report,
  sorted_result, stamp_files, search_file,
}
use ezsql.Scan.Limits.{count, matches, is_match, scan_counts}

run : Unit {0}
unfolding scan_with_classification build_file_manifest deepsearchsql search_file stamp_files
    scan_file scan_files reach report sorted_result classify_file ends_with is_in text_append
    text_le text_contains sorted insert_sorted Dict.get Dict.set
run = tt

abbrev file : String → String → String → ScanFile
file name suffix text = record {
  name = name;
  lower_name = name;
  suffix = suffix;
  size = some 8;
  mtime_ns = 3;
  is_binary = false;
  text = some text;
}

abbrev has_keyword : String → Bool
has_keyword text = text == "SELECT 1"

abbrev is_numbered : String → Bool
is_numbered name = name == "1_a.sql"

abbrev limits : ScanLimits
limits = record {
  max_file_size = 9;
  max_files_per_scan = 3;
  max_total_bytes = 10;
  max_scan_depth = 2;
}

abbrev tree : Folder
tree = folder (file "readme.md" ".md" "hello" ∷ []) (
    child "db" (folder (file "q.sql" ".sql" "" ∷ file "1_a.sql" ".sql" "" ∷ []) end)
      (child "env" (folder (file "b.sql" ".sql" "" ∷ []) end) end))

scans :
    (scan_with_classification has_keyword is_numbered limits tree).by_dir
    ≡ (".", ("readme.md", doc) ∷ []) ∷ ("db", ("1_a.sql", migration) ∷ ("q.sql", query) ∷ []) ∷ []
unfolding run
scans = refl

-- The document is reported, but its changes are not seen.
unseen : Dict.get "readme.md" (build_file_manifest has_keyword is_numbered tree) ≡ none
unfolding run
unseen = refl

-- Three texts of eight bytes are read, with a limit of ten on all of them.
abbrev texts : Folder
texts = folder (file "a" "" "x" ∷ file "b" "" "y" ∷ file "c" "" "z" ∷ []) end

reads_on : (scan_with_classification has_keyword is_numbered limits texts).truncated ≡ false
unfolding run
reads_on = refl

finds_names :
    (deepsearchsql has_keyword is_numbered limits tree).by_dir
    ≡ ("db", "1_a.sql" ∷ "q.sql" ∷ []) ∷ []
unfolding run
finds_names = refl

scan_counts_example :
    (count (scan_with_classification has_keyword is_numbered limits tree).by_dir ≤ 3)
    × (((scan_with_classification has_keyword is_numbered limits tree).truncated ≡ true)
        ⊎ (count (scan_with_classification has_keyword is_numbered limits tree).by_dir
            ≡ matches (is_match has_keyword is_numbered limits) (reach (leb 2) "." 0 tree)))
scan_counts_example = scan_counts has_keyword is_numbered limits tree
