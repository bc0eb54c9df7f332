-- ===== src/Tests/SecurityTests.antt =====
-- Two rules, the less severe first, and two units; the text "?" does not parse.
use ezsql.Base.{
  ℕ, String, false, Option, none, some, List, [], ◌∷◌, map, ◌≡◌, ◌≢◌, ◌⊎◌, refl, ◌==◌, string_eq,
  if◌then◌else◌, is_in, text_le, Perm, gather,
}
use ezsql.Base.Sorting.{sorted, IsSorted}
use ezsql.Security.Model.{
  AnalysisUnit, Finding, SecurityRule, Severity, sql, query, critical, low, Evidence, FindingKind,
  SchemaSource, evaluated, location_le,
}
use ezsql.Security.Engine.{evaluate, evaluate_pair, severity_le, check_applicability}
use ezsql.Security.Coverage.{pairs, named, names, coverage_complete, evaluated_honest}
use ezsql.Security.Findings.{expected, findings_exact}

run : Unit {0}
unfolding evaluate evaluate_pair sorted is_in text_le
run = tt

abbrev parse : String → String → Option String
parse text dialect = if text == "?" then none else some text

abbrev at_line : ℕ → String → Finding
at_line line rule_id = record {
  rule_id = rule_id;
  title = "";
  severity = low;
  message = "";
  location = record {
    statement_index = 0;
    start_line = line;
    start_col = 1;
    end_line = line;
    end_col = 1;
    file = none;
  };
  evidence = Evidence.static;
  kind = FindingKind.fact;
  schema_source = SchemaSource.no_schema;
  unit_id = none;
  input_role = none;
  fix_suggestion = none;
  dialect = "unknown";
}

abbrev rule_with : String → Severity → ℕ → SecurityRule String
rule_with rule_id severity line = record {
  rule_id = rule_id;
  title = "";
  severity = severity;
  category = "";
  dialect_scope = none;
  requires_known_dialect = false;
  input_kinds = sql ∷ [];
  applicable_roles = query ∷ [];
  predicate = λ subject unit dialect. some (at_line line rule_id ∷ []);
  description = "";
  autofix_available = false;
}

abbrev unit_with : String → String → AnalysisUnit
unit_with unit_id content = record {
  unit_id = unit_id;
  file = none;
  content = content;
  input_kind = sql;
  input_role = query;
}

abbrev two_rules : List (SecurityRule String)
two_rules = rule_with "L" low 1 ∷ rule_with "C" critical 7 ∷ []

abbrev two_units : List AnalysisUnit
two_units = unit_with "a" "SELECT 1" ∷ unit_with "b" "?" ∷ []

lines :
    map (λ f. f.rule_id) (evaluate parse two_rules two_units "postgres").findings ≡ "L" ∷ "C" ∷ []
unfolding run
lines = refl

coverage_complete_example :
    map named (evaluate parse two_rules two_units "postgres").coverage
    ≡ map names (pairs (sorted severity_le two_rules) two_units)
coverage_complete_example = coverage_complete parse two_rules two_units "postgres"

findings_exact_example :
    Perm
      (gather (expected parse "postgres") (pairs (sorted severity_le two_rules) two_units))
      (evaluate parse two_rules two_units "postgres").findings
    × IsSorted location_le (evaluate parse two_rules two_units "postgres").findings
findings_exact_example = findings_exact parse two_rules two_units "postgres"

evaluated_honest_example :
    ((evaluate_pair parse (rule_with "L" low 1) (unit_with "b" "?") "postgres").1.status ≡ evaluated
      × (check_applicability (rule_with "L" low 1) (unit_with "b" "?") "postgres" ≡ none))
    ⊎ ((evaluate_pair parse (rule_with "L" low 1) (unit_with "b" "?") "postgres").1.status
          ≢ evaluated
        × ((evaluate_pair parse (rule_with "L" low 1) (unit_with "b" "?") "postgres").0 ≡ []))
evaluated_honest_example =
    evaluated_honest parse (rule_with "L" low 1) (unit_with "b" "?") "postgres"
