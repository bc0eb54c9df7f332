-- ===== src/Security/Engine.antt =====
-- core/security/engine.py: the rules run over the units of analysis, with a record of coverage for
-- each pair. A rule's predicate is a field of the rule, `none` where it raises.
use ezsql.Base.{
  String, Bool, false, ◌&&◌, not, Option, none, some, List, [], ◌∷◌, ◌++◌, map, leb, ◌==◌,
  string_eq, if◌then◌else◌, is_in,
}
use ezsql.Base.Sorting.{sorted}
use ezsql.Security.Model.{
  Status, Reason, AnalysisUnit, Finding, RuleCoverage, EngineResult, severity_rank, kind_eq,
  role_eq, location_le, Subject, SecurityRule, sql, python_source, evaluated, skipped,
  not_applicable, input_kind_mismatch, input_role_mismatch, dialect_mismatch, parse_failure,
  predicate_error, statements, source,
}

-- `scope is not None and dialect not in scope`
abbrev pub out_of_scope : Option (List String) → String → Bool
out_of_scope none dialect = false
out_of_scope (some scope) dialect = not (is_in dialect scope)

-- The reason why a rule does not apply, or `none`.
unfoldable pub check_applicability :
    {S : Type 0} → SecurityRule S → AnalysisUnit → String → Option Reason
unfolding is_in
check_applicability rule unit dialect =
    if not (is_in unit.input_kind rule.input_kinds)
    then some input_kind_mismatch
    else if not (is_in unit.input_role rule.applicable_roles)
    then some input_role_mismatch
    else if rule.requires_known_dialect && dialect == "unknown"
    then some dialect_mismatch
    else if not (dialect == "unknown") && out_of_scope rule.dialect_scope dialect
    then some dialect_mismatch
    else none

abbrev pub covers :
    {S : Type 0} → SecurityRule S → AnalysisUnit → Status → Option Reason → RuleCoverage
covers rule unit status reason = record {
  rule_id = rule.rule_id;
  unit_id = unit.unit_id;
  status = status;
  reason = reason;
}

abbrev pub status_of : Reason → Status
status_of dialect_mismatch = skipped
status_of _ = not_applicable

-- `f.unit_id = ...; f.input_role = ...; f.dialect = ...`
abbrev pub tag : AnalysisUnit → String → Finding → Finding
tag unit dialect f = record f {
  unit_id = some unit.unit_id;
  input_role = some unit.input_role;
  dialect = dialect;
}

-- What the predicate's call leads to.
abbrev pub after_call :
    {S : Type 0}
    → SecurityRule S
    → AnalysisUnit
    → String
    → Option (List Finding)
    → List Finding × RuleCoverage
after_call rule unit dialect none = ([], covers rule unit skipped (some predicate_error))
after_call rule unit dialect (some findings) =
    (map (tag unit dialect) findings, covers rule unit evaluated none)

abbrev pub call :
    {S : Type 0} → SecurityRule S → AnalysisUnit → String → Subject S → List Finding × RuleCoverage
call rule unit dialect subject = after_call rule unit dialect (rule.predicate subject unit dialect)

-- The key of the sort of the rules.
abbrev pub severity_le : {S : Type 0} → SecurityRule S → SecurityRule S → Bool
severity_le r q = leb (severity_rank r.severity) (severity_rank q.severity)

-- `parse` gives the parser's result for a text and a dialect, `none` for an `InternalFailure`.
module _ {S : Type 0} (parse : String → String → Option S) where
  -- The branch of a SQL unit, which is parsed where no result is given.
  abbrev pub evaluate_sql :
      SecurityRule S → AnalysisUnit → String → Option S → List Finding × RuleCoverage
  evaluate_sql rule unit dialect (some parsed) = call rule unit dialect (statements parsed)
  evaluate_sql rule unit dialect none = elim (parse unit.content dialect) [
    | none ↦ ([], covers rule unit skipped (some parse_failure))
    | some parsed ↦ call rule unit dialect (statements parsed)
  ]

  unfoldable pub evaluate_rule :
      SecurityRule S → AnalysisUnit → String → Option S → List Finding × RuleCoverage
  unfolding check_applicability
  evaluate_rule rule unit dialect parse_result = elim (check_applicability rule unit dialect) [
    | some reason ↦ ([], covers rule unit (status_of reason) (some reason))
    | none ↦ elim (unit.input_kind) [
      | sql ↦ evaluate_sql rule unit dialect parse_result
      | python_source ↦ call rule unit dialect (source unit.content)
    ]
  ]

  -- The body of the inner loop: what it appends to the two lists.
  unfoldable pub evaluate_pair :
      SecurityRule S → AnalysisUnit → String → List Finding × RuleCoverage
  unfolding evaluate_rule
  evaluate_pair rule unit dialect = elim (unit.input_kind) [
    | sql ↦ elim (parse unit.content dialect) [
      | none ↦ ([], covers rule unit skipped (some parse_failure))
      | some parsed ↦ evaluate_rule rule unit dialect (some parsed)
    ]
    | python_source ↦ evaluate_rule rule unit dialect none
  ]

  -- The inner loop, with the lists so far.
  unfoldable pub evaluate_units :
      SecurityRule S → List AnalysisUnit → String → EngineResult → EngineResult
  unfolding evaluate_pair
  evaluate_units rule [] dialect r = r
  evaluate_units rule (unit ∷ units) dialect r =
      let (findings, coverage) = evaluate_pair rule unit dialect in
      evaluate_units rule units dialect
        (record { findings = r.findings ++ findings; coverage = r.coverage ++ coverage ∷ [] })

  unfoldable pub evaluate_rules :
      List (SecurityRule S) → List AnalysisUnit → String → EngineResult → EngineResult
  unfolding evaluate_units
  evaluate_rules [] units dialect r = r
  evaluate_rules (rule ∷ rules) units dialect r =
      evaluate_rules rules units dialect (evaluate_units rule units dialect r)

  unfoldable pub evaluate : List (SecurityRule S) → List AnalysisUnit → String → EngineResult
  unfolding evaluate_rules sorted location_le
  evaluate rules units dialect =
      let r =
        evaluate_rules (sorted severity_le rules) units dialect
          (record { findings = []; coverage = [] }) in
      record { findings = sorted location_le r.findings; coverage = r.coverage }
