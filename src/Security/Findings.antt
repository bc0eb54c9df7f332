-- ===== src/Security/Findings.antt =====
-- Which findings the engine gives, and in which order (core/security/engine.py).
use ezsql.Base.{
  String, true, false, Option, none, some, List, [], ◌∷◌, ◌++◌, map, gather, string_eq,
  text_le_total, ◌≡◌, arith, refl, sym, ◌∙◌, Perm, subst,
}
use mathlib.Core.List.{append-nil, append_assoc}
use ezsql.Base.Sorting.{sorted, sorted-Perm, sorted-IsSorted, IsSorted}
use ezsql.Security.Model.{
  AnalysisUnit, Finding, EngineResult, kind_eq, role_eq, location_le, Subject, SecurityRule, sql,
  python_source, statements, source,
}
use ezsql.Security.Coverage.{pairs}
use ezsql.Security.Engine.{
  check_applicability, tag, evaluate_rule, evaluate_pair, evaluate_units, evaluate_rules,
  severity_le, evaluate,
}

location_total : (f g : Finding) → location_le f g ≡ false → location_le g f ≡ true
unfolding location_le
location_total f g h = ground (arith, text_le_total f.rule_id g.rule_id)

-- The findings of a call that raises are none.
abbrev tagged : AnalysisUnit → String → Option (List Finding) → List Finding
tagged unit dialect none = []
tagged unit dialect (some findings) = map (tag unit dialect) findings

gather-append :
    {A B : Type 0} (f : A → List B) (xs ys : List A)
    → gather f (xs ++ ys) ≡ gather f xs ++ gather f ys
gather-append f [] ys = refl
gather-append f (x ∷ xs) ys =
    rw (gather-append f xs ys) (sym (append_assoc (f x) (gather f xs) (gather f ys)))

module _ {S : Type 0} (parse : String → String → Option S) where
  -- What a rule has to report on a unit: nothing where it does not apply, where the parser gives
  -- nothing and where the predicate raises, and else what the predicate finds.
  abbrev pub subject_of : AnalysisUnit → String → Option (Subject S)
  subject_of unit dialect = elim (unit.input_kind) [
    | sql ↦ elim (parse unit.content dialect) [
      | none ↦ none
      | some parsed ↦ some (statements parsed)
    ]
    | python_source ↦ some (source unit.content)
  ]

  abbrev pub reports : SecurityRule S → AnalysisUnit → String → Option (Subject S) → List Finding
  reports rule unit dialect none = []
  reports rule unit dialect (some subject) =
      tagged unit dialect (rule.predicate subject unit dialect)

  abbrev pub expected : String → SecurityRule S × AnalysisUnit → List Finding
  expected dialect (rule, unit) = elim (check_applicability rule unit dialect) [
    | some reason ↦ []
    | none ↦ reports rule unit dialect (subject_of unit dialect)
  ]

  pair_findings :
      (rule : SecurityRule S) (unit : AnalysisUnit) (dialect : String)
      → (evaluate_pair parse rule unit dialect).0 ≡ expected dialect (rule, unit)
  unfolding evaluate_pair evaluate_rule
  pair_findings rule unit dialect = ground arith

  units_findings :
      (rule : SecurityRule S) (units : List AnalysisUnit) (dialect : String) (r : EngineResult)
      → (evaluate_units parse rule units dialect r).findings
        ≡ r.findings ++ gather (expected dialect) (map (λ u. (rule, u)) units)
  unfolding evaluate_units
  units_findings rule [] dialect r = sym (append-nil r.findings)
  units_findings rule (u ∷ units) dialect r =
      let rest = units_findings rule units dialect _ in
      rest ∙ rw (pair_findings rule u dialect) (append_assoc r.findings _ _)

  rules_findings :
      (rules : List (SecurityRule S)) (units : List AnalysisUnit) (dialect : String)
      (r : EngineResult)
      → (evaluate_rules parse rules units dialect r).findings
        ≡ r.findings ++ gather (expected dialect) (pairs rules units)
  unfolding evaluate_rules
  rules_findings [] units dialect r = sym (append-nil r.findings)
  rules_findings (rule ∷ rules) units dialect r =
      let rest = rules_findings rules units dialect (evaluate_units parse rule units dialect r) in
      rw (rest, units_findings rule units dialect r, gather-append) (append_assoc r.findings _ _)

  -- The findings that the engine gives are those that the rules have to report on the units,
  -- each as often, and stand in the order of their locations.
  pub findings_exact :
      (rules : List (SecurityRule S)) (units : List AnalysisUnit) (dialect : String)
      → Perm
          (gather (expected dialect) (pairs (sorted severity_le rules) units))
          (evaluate parse rules units dialect).findings
        × IsSorted location_le (evaluate parse rules units dialect).findings
  unfolding evaluate
  findings_exact rules units dialect =
      let start : EngineResult = record { findings = []; coverage = [] } in
      let r = evaluate_rules parse (sorted severity_le rules) units dialect start in
      let raw = rules_findings (sorted severity_le rules) units dialect start in
      (
        subst (λ l. Perm l (sorted location_le r.findings)) raw
            (sorted-Perm location_le r.findings),
        sorted-IsSorted location_le location_total r.findings,
      )
