-- ===== src/Security/Model.antt =====
-- The data of the security engine: core/security/model.py, its rule in engine.py, and the finding
-- and the coverage record of server/models.py.
use ezsql.Base.{
  ℕ, String, Bool, true, ◌&&◌, ◌||◌, Option, List, ltb, nat_beq, string_eq, Comparable, text_le,
  ◌≡◌, ◌↔◌, arith,
}
use ezsql.Schema.Model.{SourceSpan}

pub data InputKind : Type 0 where
  sql python_source : InputKind

pub data InputRole : Type 0 where
  query migration script : InputRole

pub data Severity : Type 0 where
  critical high medium low info : Severity

pub data Status : Type 0 where
  evaluated skipped not_applicable : Status

-- The reasons of a record, by the texts of the source.
pub data Reason : Type 0 where
  input_kind_mismatch input_role_mismatch dialect_mismatch parse_failure predicate_error : Reason

pub data Evidence : Type 0 where
  static schema runtime : Evidence

pub data FindingKind : Type 0 where
  fact inference : FindingKind

pub data SchemaSource : Type 0 where
  repo_ddl introspection no_schema : SchemaSource

pub record AnalysisUnit : Type 0 where
  pub unit_id : String
  pub file : Option String
  pub content : String
  pub input_kind : InputKind
  pub input_role : InputRole

pub record Finding : Type 0 where
  pub rule_id : String
  pub title : String
  pub severity : Severity
  pub message : String
  pub location : SourceSpan
  pub evidence : Evidence
  pub kind : FindingKind
  pub schema_source : SchemaSource
  pub unit_id : Option String
  pub input_role : Option InputRole
  pub fix_suggestion : Option String
  pub dialect : String

pub record RuleCoverage : Type 0 where
  pub rule_id : String
  pub unit_id : String
  pub status : Status
  pub reason : Option Reason

pub record EngineResult : Type 0 where
  pub findings : List Finding
  pub coverage : List RuleCoverage

abbrev pub kind_rank : InputKind → ℕ
kind_rank sql = 0
kind_rank python_source = 1

abbrev pub role_rank : InputRole → ℕ
role_rank query = 0
role_rank migration = 1
role_rank script = 2

-- `severity_order`
abbrev pub severity_rank : Severity → ℕ
severity_rank critical = 0
severity_rank high = 1
severity_rank medium = 2
severity_rank low = 3
severity_rank info = 4

pub kind_decides : (j k : InputKind) → (nat_beq (kind_rank j) (kind_rank k) ≡ true) ↔ (j ≡ k)
kind_decides j k = ground arith

pub role_decides : (j k : InputRole) → (nat_beq (role_rank j) (role_rank k) ≡ true) ↔ (j ≡ k)
role_decides j k = ground arith

instance abbrev pub kind_eq : Comparable InputKind
kind_eq = record { decides = kind_decides; same = λ j k. nat_beq (kind_rank j) (kind_rank k) }

instance abbrev pub role_eq : Comparable InputRole
role_eq = record { decides = role_decides; same = λ j k. nat_beq (role_rank j) (role_rank k) }

-- The order of tuples, from the test of their first parts and of the rest.
abbrev pub then_by : ℕ → ℕ → Bool → Bool
then_by a b rest = ltb a b || nat_beq a b && rest

-- `(statement_index, start_line, start_col, rule_id)`
unfoldable pub location_le : Finding → Finding → Bool
location_le f g = then_by f.location.statement_index g.location.statement_index (
    then_by f.location.start_line g.location.start_line
      (then_by f.location.start_col g.location.start_col (text_le f.rule_id g.rule_id)))

-- `S` is what the parser gives for a text; a predicate reads it, or the text itself.
pub data Subject (S : Type 0) : Type 0 where
  statements : S → Subject S
  source : String → Subject S

pub record SecurityRule (S : Type 0) : Type 0 where
  pub rule_id : String
  pub title : String
  pub severity : Severity
  pub category : String
  pub dialect_scope : Option (List String)
  pub requires_known_dialect : Bool
  pub input_kinds : List InputKind
  pub applicable_roles : List InputRole
  pub predicate : Subject S → AnalysisUnit → String → Option (List Finding)
  pub description : String
  pub autofix_available : Bool
