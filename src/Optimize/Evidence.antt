-- ===== src/Optimize/Evidence.antt =====
-- src/ezsql/pipelines/optimize_runtime.py: the merge of the planner's evidence into the candidates.
use ezsql.Base.{
  ℕ, zero, suc, ◌+◌, ◌-◌, ◌≤◌, String, Bool, true, false, ◌||◌, Option, none, some, List, [], ◌∷◌,
  is_nil, nat_beq, length, ◌≡◌, ◌↔◌, refl, arith, inl, inr, Bool-cases, All, if◌then◌else◌,
}
use ezsql.Optimize.{Candidate}

-- What the merge writes to a candidate; `is_warned` says that the warning on the cardinality is
-- among the preconditions.
pub record RuntimeEvidence (D : Type 0) : Type 0 where
  pub plan_delta : Option D
  pub is_runtime : Bool
  pub is_warned : Bool
  pub runtime_failure : Option String

abbrev pub static : {D : Type 0} → RuntimeEvidence D
static = record { plan_delta = none; is_runtime = false; is_warned = false; runtime_failure = none }

-- How the task of an index ended: with a plan, whose delta is taken, by an error of the adapter,
-- or not in time.
pub data Explained (D : Type 0) : Type 0 where
  delta : D → Explained D
  adapter_error : String → Explained D
  pending : Explained D

pub data EvidenceStatus : Type 0 where
  available : EvidenceStatus
  partial : ℕ → EvidenceStatus

module _ {D : Type 0} (cardinality_changed : D → Bool) where
  abbrev pub write : Explained D → RuntimeEvidence D → RuntimeEvidence D
  write (delta d) e = record e {
    plan_delta = some d;
    is_runtime = true;
    is_warned = e.is_warned || cardinality_changed d;
  }
  write (adapter_error detail) e = record e { runtime_failure = some detail }
  write pending e = e

  -- `merged.candidates[idx]` is written. There is always such a candidate, since an index is less
  -- than the number of the candidates.
  unfoldable pub write_at : ℕ → Explained D → List (RuntimeEvidence D) → List (RuntimeEvidence D)
  write_at idx outcome [] = []
  write_at zero outcome (e ∷ l) = write outcome e ∷ l
  write_at (suc idx) outcome (e ∷ l) = e ∷ write_at idx outcome l

  -- The loop over the eligible.
  unfoldable pub merge :
      (ℕ → Explained D) → List (ℕ × Candidate) → List (RuntimeEvidence D) → List (RuntimeEvidence D)
  unfolding write_at
  merge outcomes [] merged = merged
  merge outcomes ((idx, candidate) ∷ eligible) merged =
      merge outcomes eligible (write_at idx (outcomes idx) merged)

  abbrev pub is_delta : Explained D → Bool
  is_delta (delta d) = true
  is_delta _ = false

  abbrev pub one_if : Bool → ℕ
  one_if true = 1
  one_if false = 0

  unfoldable pub verified : (ℕ → Explained D) → List (ℕ × Candidate) → ℕ
  verified outcomes [] = 0
  verified outcomes (p ∷ eligible) = one_if (is_delta (outcomes p.0)) + verified outcomes eligible

  unfoldable pub evidence_status : (ℕ → Explained D) → List (ℕ × Candidate) → EvidenceStatus
  unfolding verified
  evidence_status outcomes eligible =
      if nat_beq (verified outcomes eligible) (length eligible) || is_nil eligible
      then available
      else partial (length eligible - verified outcomes eligible)

  verified-le :
      (outcomes : ℕ → Explained D) (l : List (ℕ × Candidate)) → verified outcomes l ≤ length l
  unfolding verified
  verified-le outcomes [] = omega arith
  verified-le outcomes (p ∷ l) = elim (Bool-cases (is_delta (outcomes p.0))) [
    | inl plan ↦ rw plan (omega (arith, verified-le outcomes l))
    | inr other ↦ rw other (omega (arith, verified-le outcomes l))
  ]

  abbrev pub AllVerified : (ℕ → Explained D) → List (ℕ × Candidate) → Type 0
  AllVerified outcomes l = All (λ p. is_delta (outcomes p.0) ≡ true) l

  all_count :
      (outcomes : ℕ → Explained D) (l : List (ℕ × Candidate))
      → verified outcomes l ≡ length l
      → AllVerified outcomes l
  unfolding verified
  all_count outcomes [] h = tt
  all_count outcomes (p ∷ l) h = elim (Bool-cases (is_delta (outcomes p.0))) [
    | inl plan ↦ (plan, all_count outcomes l (omega (arith, rw plan at h)))
    | inr other ↦ absurd (omega (arith, rw other at h, verified-le outcomes l))
  ]

  count_all :
      (outcomes : ℕ → Explained D) (l : List (ℕ × Candidate))
      → AllVerified outcomes l
      → verified outcomes l ≡ length l
  unfolding verified
  count_all outcomes [] h = refl
  count_all outcomes (p ∷ l) h = rw h.0 (omega (arith, count_all outcomes l h.1))

  -- The evidence counts as available exactly when every eligible candidate was explained.
  pub status_exact :
      (outcomes : ℕ → Explained D) (eligible : List (ℕ × Candidate))
      → (evidence_status outcomes eligible ≡ available) ↔ AllVerified outcomes eligible
  unfolding evidence_status verified
  status_exact outcomes [] = (λ h. tt, λ h. refl)
  status_exact outcomes (p ∷ l) =
      let n = verified outcomes (p ∷ l) in
      elim (Bool-cases (nat_beq n (length (p ∷ l)))) [
        | inl all ↦ (
          λ h. all_count outcomes (p ∷ l) (ground (arith, all)),
          λ h. rw (evidence_status, all) refl,
        )
        | inr some_left ↦ (
          λ h. absurd (cc (rw (evidence_status, some_left) at h)),
          λ h. ground (arith, some_left, count_all outcomes (p ∷ l) h),
        )
      ]
