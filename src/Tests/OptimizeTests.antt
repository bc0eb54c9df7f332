-- ===== src/Tests/OptimizeTests.antt =====
-- Three candidates of which the first is not eligible: the others get the indices 0 and 1.
use ezsql.Base.{ℕ, true, false, nat_beq, if◌then◌else◌, List, [], ◌∷◌, ◌≡◌, refl, map}
use ezsql.Optimize.Evidence.{Explained, delta, pending, static, merge, evidence_status, partial}
use ezsql.Gate.{validate_explainable_query}
use ezsql.Tests.GateTests.{toy}
use ezsql.Optimize.{
  validated, failed, passed, Candidate, eligible_candidates, IsChoice, eligible-IsChoice,
}

run : Unit {0}
unfolding eligible_candidates validate_explainable_query
run = tt

abbrev candidates : List Candidate
candidates =
    record { rewritten_sql = "SELECT 1"; validation_status = failed; security_status = passed }
    ∷ record { rewritten_sql = "SELECT 1"; validation_status = validated; security_status = passed }
    ∷ record { rewritten_sql = "SELECT 1"; validation_status = validated; security_status = passed }
    ∷ []

shifted : map (λ p. p.0) (eligible_candidates toy 100 5 candidates) ≡ 0 ∷ 1 ∷ []
unfolding run
shifted = refl

eligible-IsChoice_example : IsChoice toy 100 5 (eligible_candidates toy 100 5 candidates)
eligible-IsChoice_example = eligible-IsChoice toy 100 5 candidates

abbrev quick : Explained ℕ
quick = delta 5

-- The evidence of the second candidate and of the third is written to the first and the second.
misplaced :
    map
      (λ e. e.is_runtime)
      (merge
        (λ d. false)
        (λ idx. quick)
        (eligible_candidates toy 100 5 candidates)
        (static ∷ static ∷ static ∷ []))
    ≡ true ∷ true ∷ false ∷ []
unfolding run merge
misplaced = refl

one_left :
    evidence_status
      (λ d. false)
      (λ idx. if nat_beq idx 0 then quick else pending)
      (eligible_candidates toy 100 5 candidates)
    ≡ partial 1
unfolding run evidence_status
one_left = refl
