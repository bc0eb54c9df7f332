-- ===== src/Escalate.antt =====
-- src/ezsql/llm/escalate.py: one budgeted call of a language model. The transport is a parameter,
-- `none` where it raises, and so is the result of the environment variable with the key. What is
-- sent is part of the result.
use ezsql.Base.{
  ℕ, ◌≤◌, min, max, String, Bool, true, false, Option, none, some, List, [], ◌∷◌, map, ltb, ◌==◌,
  string_eq, ◌≡◌, refl, sym, ap, subst, if◌then◌else◌, arith, inl, inr, Bool-cases, All,
  text_length, text_take, length-text_take-le,
}
use ezsql.Plan.Redact.{Sqlglot, redact_literals}
use ezsql.Counters.{Counts, inc}

pub data Status : Type 0 where
  ok unavailable failed budget_exhausted : Status

pub record EscalationResult : Type 0 where
  pub used : Bool
  pub tokens : ℕ
  pub advisory_text : Option String
  pub status : Status

-- The settings that it reads.
pub record Config : Type 0 where
  pub llm_api_key : Option String
  pub llm_model : String
  pub llm_timeout_seconds : ℕ
  pub llm_token_budget : ℕ
  pub max_advisory_chars : ℕ

-- A call of the transport. The parts of the user's message stand apart, where the code joins them;
-- the system's message is a constant.
pub record Request : Type 0 where
  pub model : String
  pub parts : List String
  pub max_tokens : ℕ
  pub timeout : ℕ

pub record Outcome : Type 0 where
  pub sent : Option Request
  pub counts : Counts
  pub result : EscalationResult

-- `_MIN_CALL_TOKENS`
abbrev pub min_call_tokens : ℕ
min_call_tokens = 256

-- `not key`
abbrev pub no_key : Option String → Bool
no_key none = true
no_key (some key) = key == ""

abbrev pub unused : Status → EscalationResult
unused status = record { used = false; tokens = 0; advisory_text = none; status = status }

-- A text, or nothing for the empty one.
abbrev pub or_nothing : String → Option String
or_nothing text = if text == "" then none else some text

module _ (sqlglot : Sqlglot) (transport : Request → Option (String × ℕ)) where
  -- `_redact_part`
  unfoldable pub redact_part : ℕ → String → String
  redact_part max_chars part = text_take max_chars (redact_literals sqlglot part max_chars)

  abbrev pub request : List String → ℕ → Config → Request
  request prompt_parts budget config = record {
    model = config.llm_model;
    parts = map (redact_part (max 1 config.max_advisory_chars)) prompt_parts;
    max_tokens = budget;
    timeout = config.llm_timeout_seconds;
  }

  -- What follows the call of the transport.
  abbrev pub after_call : Counts → Config → Request → Option (String × ℕ) → Outcome
  after_call counts config sent none = record {
    sent = some sent;
    counts = inc counts "escalation_failures" 1;
    result = unused failed;
  }
  after_call counts config sent (some (advisory, tokens)) = record {
    sent = some sent;
    counts = inc (inc counts "escalation_successes" 1) "escalation_tokens" tokens;
    result = record {
      used = true;
      tokens = tokens;
      advisory_text = or_nothing (text_take config.max_advisory_chars advisory);
      status = ok;
    };
  }

  unfoldable pub escalate : Counts → List String → ℕ → Config → Outcome
  unfolding redact_part
  escalate counts prompt_parts budget config =
      let counts' = inc counts "escalation_requests" 1 in
      let effective_budget = min budget config.llm_token_budget in
      let sent = request prompt_parts effective_budget config in
      if no_key config.llm_api_key
      then record { sent = none; counts = counts'; result = unused unavailable }
      else if ltb effective_budget min_call_tokens
      then record {
        sent = none;
        counts = inc counts' "escalation_budget_exhausted" 1;
        result = unused budget_exhausted;
      }
      else after_call counts' config sent (transport sent)

  parts_lem :
      (n : ℕ) (parts : List String) → All (λ part. text_length part ≤ n) (map (redact_part n) parts)
  unfolding redact_part
  parts_lem n [] = tt
  parts_lem n (p ∷ parts) = (length-text_take-le n (redact_literals sqlglot p n), parts_lem n parts)

  after_call_lem :
      (counts : Counts) (config : Config) (sent : Request) (answer : Option (String × ℕ))
      → (after_call counts config sent answer).sent ≡ some sent
  after_call_lem counts config sent none = refl
  after_call_lem counts config sent (some answer) = refl

  abbrev pub effective : List String → ℕ → Config → Request
  effective prompt_parts budget config =
      request prompt_parts (min budget config.llm_token_budget) config

  sent_lem :
      (counts : Counts) (prompt_parts : List String) (budget : ℕ) (config : Config) {sent : Request}
      → (escalate counts prompt_parts budget config).sent ≡ some sent
      → (no_key config.llm_api_key ≡ false)
        × (ltb (min budget config.llm_token_budget) min_call_tokens ≡ false)
        × (effective prompt_parts budget config ≡ sent)
  unfolding escalate
  sent_lem counts prompt_parts budget config {sent} h =
      elim (Bool-cases (no_key config.llm_api_key)) [
        | inl keyless ↦ absurd (cc (rw keyless at h))
        | inr keyed ↦ elim (Bool-cases (ltb (min budget config.llm_token_budget) min_call_tokens)) [
          | inl low ↦ absurd (cc (rw (keyed, low) at h))
          | inr enough ↦
              (let asked = effective prompt_parts budget config in
                let counts' = inc counts "escalation_requests" 1 in
                (
                  keyed,
                  enough,
                  cc (
                    after_call_lem counts' config asked (transport asked),
                    rw (keyed, enough) at h,
                  ),
                ))
        ]
      ]

  -- A request that escalate sends is sent with a key, asks for no more tokens than the caller's
  -- budget and the configured one, and for 256 at least; its parts are the redacted parts of the
  -- prompt in their order, each of at most `max 1 max_advisory_chars` characters.
  pub sent_bounded :
      (counts : Counts) (prompt_parts : List String) (budget : ℕ) (config : Config) {sent : Request}
      → (escalate counts prompt_parts budget config).sent ≡ some sent
      → (no_key config.llm_api_key ≡ false)
        × (sent.max_tokens ≤ budget)
        × (sent.max_tokens ≤ config.llm_token_budget)
        × (256 ≤ sent.max_tokens)
        × (sent.parts ≡ map (redact_part (max 1 config.max_advisory_chars)) prompt_parts)
        × All (λ part. text_length part ≤ max 1 config.max_advisory_chars) sent.parts
  sent_bounded counts prompt_parts budget config {sent} h =
      let (keyed, enough, same) = sent_lem counts prompt_parts budget config h in
      let tokens : min budget config.llm_token_budget ≡ sent.max_tokens =
        ap (λ r. r.max_tokens) same in
      let parts : map (redact_part (max 1 config.max_advisory_chars)) prompt_parts ≡ sent.parts =
        ap (λ r. r.parts) same in
      (
        keyed,
        omega (arith, tokens),
        omega (arith, tokens),
        ground (arith, tokens, enough),
        sym parts,
        subst (All (λ part. text_length part ≤ max 1 config.max_advisory_chars)) parts
            (parts_lem (max 1 config.max_advisory_chars) prompt_parts),
      )
