-- ===== src/Optimize.antt =====
-- src/ezsql/pipelines/optimize_runtime.py: the choice of the candidates that are explained on the
-- live database, and the index that each is known by.
pub mod Evidence
use ezsql.Base.{
  ℕ, suc, ◌+◌, ◌≤◌, String, Bool, true, false, not, ◌&&◌, List, [], ◌∷◌, ◌++◌, leb, ◌≡◌, subst,
  if◌then◌else◌, arith, inl, inr, Bool-cases, All, All-append, length, length-append,
}
use ezsql.Gate.{Sqlglot, Verdict, accepted, rejected, validate_explainable_query}

-- The source calls the second one "withheld", as it does a state of the other type.
pub data ValidationStatus : Type 0 where
  validated not_validated failed : ValidationStatus

pub data SecurityStatus : Type 0 where
  unchecked passed withheld : SecurityStatus

abbrev pub is_validated : ValidationStatus → Bool
is_validated validated = true
is_validated _ = false

abbrev pub is_withheld : SecurityStatus → Bool
is_withheld withheld = true
is_withheld _ = false

-- What the choice reads of a `RewriteCandidate`: its text and its two states.
pub record Candidate : Type 0 where
  pub rewritten_sql : String
  pub validation_status : ValidationStatus
  pub security_status : SecurityStatus

abbrev pub is_accepted : Verdict → Bool
is_accepted (accepted q) = true
is_accepted (rejected reason detail) = false

module _ {N : Type 0} (sqlglot : Sqlglot N) (max_bytes : ℕ) where
  -- The three tests of the loop.
  unfoldable pub is_eligible : Candidate → Bool
  is_eligible c =
      is_validated c.validation_status
      && (not (is_withheld c.security_status)
          && is_accepted (validate_explainable_query sqlglot c.rewritten_sql max_bytes))

  -- `eligible.append((len(eligible), candidate))` where the tests pass.
  abbrev pub append_eligible : Candidate → List (ℕ × Candidate) → List (ℕ × Candidate)
  append_eligible c eligible =
      if is_eligible c then eligible ++ (length eligible, c) ∷ [] else eligible

  -- The loop, with the list so far.
  unfoldable pub eligible_loop : ℕ → List Candidate → List (ℕ × Candidate) → List (ℕ × Candidate)
  eligible_loop max_candidates [] eligible = eligible
  eligible_loop max_candidates (c ∷ candidates) eligible =
      let rest = eligible_loop max_candidates candidates (append_eligible c eligible) in
      if leb max_candidates (length eligible) then eligible else rest

  unfoldable pub eligible_candidates : ℕ → List Candidate → List (ℕ × Candidate)
  unfolding eligible_loop is_eligible
  eligible_candidates max_candidates candidates = eligible_loop max_candidates candidates []

  -- The indices count the list itself from `n`.
  abbrev pub Counts : ℕ → List (ℕ × Candidate) → Type 0
  Counts n [] = Unit
  Counts n (p ∷ l) = (p.0 ≡ n) × Counts (suc n) l

  abbrev pub IsChoice : ℕ → List (ℕ × Candidate) → Type 0
  IsChoice max_candidates l =
      (length l ≤ max_candidates) × All (λ p. is_eligible p.1 ≡ true) l × Counts 0 l

  Counts-append :
      (n : ℕ) (l : List (ℕ × Candidate)) (c : Candidate)
      → Counts n l
      → Counts n (l ++ (n + length l, c) ∷ [])
  Counts-append n [] c h = (omega arith, tt)
  Counts-append n (p ∷ l) c h =
      let next = Counts-append (suc n) l c h.1 in
      let same : suc n + length l ≡ n + suc (length l) = omega arith in
      (h.0, subst (λ k. Counts (suc n) (l ++ (k, c) ∷ [])) same next)

  zero_add : (n : ℕ) → 0 + n ≡ n
  zero_add n = omega arith

  append-IsChoice :
      (max_candidates : ℕ) (c : Candidate) (l : List (ℕ × Candidate))
      → leb max_candidates (length l) ≡ false
      → IsChoice max_candidates l
      → IsChoice max_candidates (append_eligible c l)
  append-IsChoice max_candidates c l room h = elim (Bool-cases (is_eligible c)) [
    | inr no_use ↦ rw no_use h
    | inl good ↦ rw good (
      ground (arith, room, length-append l ((length l, c) ∷ [])),
      All-append (λ p. is_eligible p.1 ≡ true) l ((length l, c) ∷ []) h.1 (good, tt),
      subst (λ k. Counts 0 (l ++ (k, c) ∷ [])) (zero_add (length l)) (Counts-append 0 l c h.2),
    )
  ]

  loop-IsChoice :
      (max_candidates : ℕ) (candidates : List Candidate) (l : List (ℕ × Candidate))
      → IsChoice max_candidates l
      → IsChoice max_candidates (eligible_loop max_candidates candidates l)
  unfolding eligible_loop
  loop-IsChoice max_candidates [] l h = h
  loop-IsChoice max_candidates (c ∷ candidates) l h =
      elim (Bool-cases (leb max_candidates (length l))) [
        | inl full ↦ rw full h
        | inr room ↦ rw room (
            loop-IsChoice max_candidates candidates (append_eligible c l)
              (append-IsChoice max_candidates c l room h))
      ]

  -- At most `max_candidates` candidates are chosen, each of them is eligible, and their indices are
  -- 0, 1, 2 and so on in the list of the chosen, whatever candidates were passed over before them.
  pub eligible-IsChoice :
      (max_candidates : ℕ) (candidates : List Candidate)
      → IsChoice max_candidates (eligible_candidates max_candidates candidates)
  unfolding eligible_candidates
  eligible-IsChoice max_candidates candidates =
      loop-IsChoice max_candidates candidates [] (omega arith, tt, tt)
