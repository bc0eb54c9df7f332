-- ===== src/Keys.antt =====
-- cache/keys.py: the texts of which the keys of the cache are digests.
pub mod Decode
pub mod Separate
use ezsql.Base.{
  ℕ, String, Bool, Option, none, some, List, [], ◌∷◌, map, text_append, text_of_nat, text_le,
}
use ezsql.Base.Sorting.{sorted}

-- An item of the dictionary of parts.
abbrev pub Part : Type 0
Part = String × String

abbrev pub version_one : String
version_one = "1"

abbrev pub explain_options_fingerprint : String
explain_options_fingerprint = "json+costs+summary+settings+pg16"

-- `f"{k}={v}"`
unfoldable pub part : Part → String
unfolding text_append
part p = text_append p.0 (text_append "=" p.1)

-- `separator.join(texts)`
unfoldable pub text_join : String → List String → String
unfolding text_append
text_join separator [] = ""
text_join separator (s ∷ []) = s
text_join separator (s ∷ (t ∷ l)) =
    text_append s (text_append separator (text_join separator (t ∷ l)))

-- The order of the items; the keys of a dictionary are different, so the values never decide.
abbrev pub part_le : Part → Part → Bool
part_le p q = text_le p.0 q.0

-- The text that `_hash` digests.
unfoldable pub serialized : List Part → String
unfolding text_join part sorted text_le
serialized parts = text_join "|" (map part (sorted part_le parts))

abbrev pub or_empty : Option String → String
or_empty none = ""
or_empty (some s) = s

abbrev pub number_or_empty : Option ℕ → String
number_or_empty none = ""
number_or_empty (some n) = text_of_nat n

-- `version("sqlglot")`, `none` where the lookup raises.
abbrev pub version_or_unknown : Option String → String
version_or_unknown none = "unknown"
version_or_unknown (some v) = v

-- A file with its content, and one with its role and its kind too.
abbrev pub ManifestFile : Type 0
ManifestFile = String × String

abbrev pub RoleFile : Type 0
RoleFile = String × String × String × String

-- `digest size text` is the hexadecimal digest of the text's bytes.
module _ (digest : ℕ → String → String) (sqlglot : Option String) where
  abbrev pub sqlglot_version : Part
  sqlglot_version = ("sqlglot_version", version_or_unknown sqlglot)

  -- `_hash`
  unfoldable pub hash : List Part → String
  unfolding serialized
  hash parts = digest 32 (serialized parts)

  -- `_hash_sql`
  abbrev pub hash_sql : String → String
  hash_sql sql = digest 16 sql

  -- The root is resolved.
  abbrev pub scan_parts : String → List Part
  scan_parts root =
      ("domain", "scan") ∷ ("root", root) ∷ ("ruleset_version", version_one) ∷ sqlglot_version ∷ []

  abbrev pub analysis_parts : String → String → Option String → List Part
  analysis_parts sql dialect schema_hash =
      ("domain", "analysis")
      ∷ ("sql_hash", hash_sql sql)
      ∷ ("dialect", dialect)
      ∷ ("schema_hash", or_empty schema_hash)
      ∷ ("lint_ruleset_version", version_one)
      ∷ ("schema_model_version", version_one)
      ∷ sqlglot_version
      ∷ []

  unfoldable pub file_text : RoleFile → String
  unfolding text_append
  file_text f = text_append f.0 (
      text_append ":"
        (text_append (hash_sql f.1) (text_append ":" (text_append f.2 (text_append ":" f.3)))))

  abbrev pub files_parts : Option (List RoleFile) → List Part
  files_parts none = ("input_mode", "empty") ∷ []
  files_parts (some files) =
      ("input_mode", "files") ∷ ("files", text_join "|" (map file_text files)) ∷ []

  abbrev pub input_parts : Option String → Option (List RoleFile) → String → List Part
  input_parts none files role = files_parts files
  input_parts (some sql) files role =
      ("input_mode", "sql") ∷ ("sql_hash", hash_sql sql) ∷ ("resolved_role", role) ∷ []

  abbrev pub security_parts : Option String → Option (List RoleFile) → String → String → List Part
  security_parts sql files dialect role =
      ("domain", "security")
      ∷ ("dialect", dialect)
      ∷ ("security_ruleset_version", version_one)
      ∷ sqlglot_version
      ∷ input_parts sql files role

  abbrev pub optimize_parts : String → String → Option String → List Part
  optimize_parts sql dialect schema_hash =
      ("domain", "optimize")
      ∷ ("sql_hash", hash_sql sql)
      ∷ ("dialect", dialect)
      ∷ ("schema_hash", or_empty schema_hash)
      ∷ ("optimization_ruleset_version", version_one)
      ∷ ("lint_ruleset_version", version_one)
      ∷ ("rewrite_ruleset_version", version_one)
      ∷ ("schema_model_version", version_one)
      ∷ sqlglot_version
      ∷ []

  unfoldable pub manifest_text : List ManifestFile → String
  unfolding text_join text_append
  manifest_text manifest =
      text_join "|" (map (λ f. text_append f.0 (text_append ":" (hash_sql f.1))) manifest)

  abbrev pub schema_parts : List ManifestFile → List Part
  schema_parts manifest =
      ("domain", "schema")
      ∷ ("manifest", manifest_text manifest)
      ∷ ("schema_model_version", version_one)
      ∷ sqlglot_version
      ∷ []

  abbrev pub explain_parts : String → String → String → Option ℕ → List Part
  explain_parts canonical_sql db_identity repo_ddl server_major =
      ("domain", "explain")
      ∷ ("sql_hash", hash_sql canonical_sql)
      ∷ ("dialect", "postgres")
      ∷ ("db_identity", db_identity)
      ∷ ("repo_ddl", repo_ddl)
      ∷ ("explain_options", explain_options_fingerprint)
      ∷ ("plan_model_version", version_one)
      ∷ ("server_major", number_or_empty server_major)
      ∷ sqlglot_version
      ∷ []

  abbrev pub limit_part : String × ℕ → Part
  limit_part l = (l.0, text_of_nat l.1)

  abbrev pub runtime_evidence_parts :
      String → String → String → List String → List (String × ℕ) → Option ℕ → List Part
  runtime_evidence_parts static_key db_identity repo_ddl candidates limits server_major =
      ("domain", "runtime_evidence")
      ∷ ("static_key", static_key)
      ∷ ("db_identity", db_identity)
      ∷ ("repo_ddl", repo_ddl)
      ∷ ("candidates", text_join "|" candidates)
      ∷ ("limits", text_join "|" (map (λ l. part (limit_part l)) limits))
      ∷ ("explain_options", explain_options_fingerprint)
      ∷ ("server_major", number_or_empty server_major)
      ∷ ("runtime_evidence_version", version_one)
      ∷ sqlglot_version
      ∷ []

  abbrev pub design_parts : String → String → Option String → List Part
  design_parts requirements dialect schema =
      ("domain", "design")
      ∷ ("requirements_hash", hash_sql requirements)
      ∷ ("dialect", dialect)
      ∷ ("schema_fingerprint", or_empty schema)
      ∷ ("design_ruleset_version", version_one)
      ∷ ("schema_model_version", version_one)
      ∷ sqlglot_version
      ∷ []

  abbrev pub refactor_parts : String → String → Option String → List Part
  refactor_parts target dialect schema =
      ("domain", "refactor")
      ∷ ("target_hash", hash_sql target)
      ∷ ("dialect", dialect)
      ∷ ("schema_fingerprint", or_empty schema)
      ∷ ("security_ruleset_version", version_one)
      ∷ ("optimization_ruleset_version", version_one)
      ∷ ("lint_ruleset_version", version_one)
      ∷ ("rewrite_ruleset_version", version_one)
      ∷ ("schema_model_version", version_one)
      ∷ ("refactor_composition_version", version_one)
      ∷ sqlglot_version
      ∷ []

  abbrev pub hash_optional : Option String → String
  hash_optional none = ""
  hash_optional (some sql) = hash_sql sql

  abbrev pub debug_parts : String → Option String → String → List Part
  debug_parts error_text sql dialect =
      ("domain", "debug")
      ∷ ("error_hash", hash_sql error_text)
      ∷ ("sql_hash", hash_optional sql)
      ∷ ("dialect", dialect)
      ∷ ("debug_catalog_version", version_one)
      ∷ ("schema_model_version", version_one)
      ∷ sqlglot_version
      ∷ []

  -- The keys themselves.
  abbrev pub scan_key : String → String
  scan_key root = hash (scan_parts root)

  abbrev pub analysis_key : String → String → Option String → String
  analysis_key sql dialect schema_hash = hash (analysis_parts sql dialect schema_hash)

  abbrev pub security_key : Option String → Option (List RoleFile) → String → String → String
  security_key sql files dialect role = hash (security_parts sql files dialect role)

  abbrev pub optimize_key : String → String → Option String → String
  optimize_key sql dialect schema_hash = hash (optimize_parts sql dialect schema_hash)

  abbrev pub schema_key : List ManifestFile → String
  schema_key manifest = hash (schema_parts manifest)

  abbrev pub explain_key : String → String → String → Option ℕ → String
  explain_key sql db_identity repo_ddl major = hash (explain_parts sql db_identity repo_ddl major)

  abbrev pub runtime_evidence_key :
      String → String → String → List String → List (String × ℕ) → Option ℕ → String
  runtime_evidence_key static_key db_identity repo_ddl candidates limits major =
      hash (runtime_evidence_parts static_key db_identity repo_ddl candidates limits major)

  abbrev pub design_key : String → String → Option String → String
  design_key requirements dialect schema = hash (design_parts requirements dialect schema)

  abbrev pub refactor_key : String → String → Option String → String
  refactor_key target dialect schema = hash (refactor_parts target dialect schema)

  abbrev pub debug_key : String → Option String → String → String
  debug_key error_text sql dialect = hash (debug_parts error_text sql dialect)
