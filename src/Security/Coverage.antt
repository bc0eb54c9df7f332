-- ===== src/Security/Coverage.antt =====
-- Which records of coverage the engine gives, and in which order (core/security/engine.py).
use ezsql.Base.{
  String, Option, none, List, [], ◌∷◌, ◌++◌, map, string_eq, ◌≡◌, ◌≢◌, ◌⊎◌, arith, refl, sym, ap,
  ◌∙◌,
}
use mathlib.Core.List.{append-nil, append_assoc}
use ezsql.Base.Sorting.{sorted}
use ezsql.Security.Model.{
  AnalysisUnit, RuleCoverage, EngineResult, kind_eq, role_eq, SecurityRule, evaluated,
}
use ezsql.Security.Engine.{
  check_applicability, evaluate_rule, evaluate_pair, evaluate_units, evaluate_rules, severity_le,
  evaluate,
}

-- What the two nested loops visit.
abbrev pub pairs : {A B : Type 0} → List A → List B → List (A × B)
pairs [] units = []
pairs (r ∷ rules) units = map (λ u. (r, u)) units ++ pairs rules units

map-append : {A B : Type 0} (f : A → B) (xs ys : List A) → map f (xs ++ ys) ≡ map f xs ++ map f ys
map-append f [] ys = refl
map-append f (x ∷ xs) ys = ap (◌∷◌ (f x)) (map-append f xs ys)

-- The pair that a record names.
abbrev pub named : RuleCoverage → String × String
named c = (c.rule_id, c.unit_id)

abbrev pub names : {S : Type 0} → SecurityRule S × AnalysisUnit → String × String
names p = (p.0.rule_id, p.1.unit_id)

module _ {S : Type 0} (parse : String → String → Option S) where
  abbrev of_pair : String → SecurityRule S × AnalysisUnit → RuleCoverage
  of_pair dialect p = (evaluate_pair parse p.0 p.1 dialect).1

  units_coverage :
      (rule : SecurityRule S) (units : List AnalysisUnit) (dialect : String) (r : EngineResult)
      → (evaluate_units parse rule units dialect r).coverage
        ≡ r.coverage ++ map (of_pair dialect) (map (λ u. (rule, u)) units)
  unfolding evaluate_units
  units_coverage rule [] dialect r = sym (append-nil r.coverage)
  units_coverage rule (u ∷ units) dialect r =
      units_coverage rule units dialect _ ∙ append_assoc r.coverage _ _

  rules_coverage :
      (rules : List (SecurityRule S)) (units : List AnalysisUnit) (dialect : String)
      (r : EngineResult)
      → (evaluate_rules parse rules units dialect r).coverage
        ≡ r.coverage ++ map (of_pair dialect) (pairs rules units)
  unfolding evaluate_rules
  rules_coverage [] units dialect r = sym (append-nil r.coverage)
  rules_coverage (rule ∷ rules) units dialect r =
      let rest = rules_coverage rules units dialect (evaluate_units parse rule units dialect r) in
      rw (rest, units_coverage rule units dialect r, map-append) (append_assoc r.coverage _ _)

  rule_named :
      (rule : SecurityRule S) (unit : AnalysisUnit) (dialect : String) (parsed : Option S)
      → named (evaluate_rule parse rule unit dialect parsed).1 ≡ (rule.rule_id, unit.unit_id)
  unfolding evaluate_rule
  rule_named rule unit dialect parsed = ground arith

  pair_named :
      (rule : SecurityRule S) (unit : AnalysisUnit) (dialect : String)
      → named (evaluate_pair parse rule unit dialect).1 ≡ (rule.rule_id, unit.unit_id)
  unfolding evaluate_pair evaluate_rule
  pair_named rule unit dialect = ground arith

  all_named :
      (dialect : String) (ps : List (SecurityRule S × AnalysisUnit))
      → map named (map (of_pair dialect) ps) ≡ map names ps
  all_named dialect [] = refl
  all_named dialect (p ∷ ps) = rw (pair_named, all_named dialect ps) refl

  -- The engine gives one record of coverage for each rule and unit, rule after rule by severity,
  -- within a rule by the order of the units: no pair is left out, and none has two records.
  pub coverage_complete :
      (rules : List (SecurityRule S)) (units : List AnalysisUnit) (dialect : String)
      → map named (evaluate parse rules units dialect).coverage
        ≡ map names (pairs (sorted severity_le rules) units)
  unfolding evaluate
  coverage_complete rules units dialect =
      ap (map named) (rules_coverage (sorted severity_le rules) units dialect _)
      ∙ all_named dialect (pairs (sorted severity_le rules) units)

  -- A rule that was not evaluated on a unit reports nothing for it, and one that was evaluated
  -- applies to the unit.
  pub evaluated_honest :
      (rule : SecurityRule S) (unit : AnalysisUnit) (dialect : String)
      → ((evaluate_pair parse rule unit dialect).1.status ≡ evaluated
          × (check_applicability rule unit dialect ≡ none))
        ⊎ ((evaluate_pair parse rule unit dialect).1.status ≢ evaluated
            × ((evaluate_pair parse rule unit dialect).0 ≡ []))
  unfolding evaluate_pair evaluate_rule
  evaluated_honest rule unit dialect = ground arith
