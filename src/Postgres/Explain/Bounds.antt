-- ===== src/Postgres/Explain/Bounds.antt =====
-- What `explain` returns and how it fails (db/postgres.py).
use ezsql.Base.{
  ◌≤◌, String, true, Option, none, some, leb, length, ◌==◌, ◌≡◌, refl, ap, ◌∙◌, if_lem, string_eq,
  arith,
}
use ezsql.Plan.Json.{Numbers, Json}
use ezsql.Plan.Model.{ParsedPlan, ops, height}
use ezsql.Plan.Redact.{Sqlglot}
use ezsql.Plan.Normalize.{
  Result, ok, err, parse_error, validation_error, number_error, normalize_explain_json,
}
use ezsql.Plan.Normalize.Outcome.{normalize_bounds}
use ezsql.Gate.{ExplainableQuery}
use ezsql.Postgres.Connect.{PostgresAdapter}
use ezsql.Postgres.Errors.{
  Outcome, returns, demand, Ensures, Ensures-bind, Ensures-map, Ensures-demand, Ensures-elim,
}
use ezsql.Postgres.Explain.{
  Settings, Transaction, Executed, fetched, raised, Exception, has_pool, byte_length, transaction,
  translate, executed, present, normalized, read_plan, explain,
}

-- An exception never becomes a value.
translate-Ensures : (e : Exception) (P : Option String → Type 0) → Ensures (translate e) P
unfolding translate
translate-Ensures e P =
    let Q = λ (o : Outcome (Option String)). Ensures o P in
    if_lem Q (e.isinstance "TimeoutError") tt (
      if_lem Q (e.isinstance "QueryCanceledError") tt (
        if_lem Q (e.isinstance "InvalidPasswordError") tt (
          if_lem Q (e.isinstance "PostgresError") tt (
            if_lem Q (e.isinstance "OSError") tt (
              if_lem Q (e.isinstance "CancelledError") tt
                (if_lem Q (e.isinstance "Exception") tt tt))))))

module _ (numbers : Numbers) (sqlglot : Sqlglot) (text_of : Json numbers.Num → String) where
  open numbers use {Num, Float}

  normalized-Ensures :
      (r : Result (ParsedPlan Float))
      → Ensures (normalized numbers sqlglot text_of r) (λ plan. r ≡ ok plan)
  normalized-Ensures (ok plan) = refl
  normalized-Ensures (err parse_error) = tt
  normalized-Ensures (err validation_error) = tt
  normalized-Ensures (err number_error) = tt

  module _ (loads : String → Option (Json Num)) (now : Float) (database : Transaction → Executed)
      (a : PostgresAdapter) (s : Settings) (query : ExplainableQuery) where
    -- The plan is what the text is normalized to, and both are small.
    abbrev IsRead : String → ParsedPlan Float → Type 0
    IsRead raw plan =
        (normalize_explain_json numbers sqlglot text_of s.limits (loads raw) now ≡ ok plan) ×
        (byte_length raw ≤ s.max_plan_response_bytes)
        × (length (ops plan.root) ≤ s.limits.max_nodes)
        × (height plan.root ≤ s.limits.max_depth)

    -- The plan is what a text is normalized to that the database gave for the transaction.
    abbrev pub IsExplained : ParsedPlan Float → Type 0
    IsExplained plan =
        (has_pool a.pool ≡ true)
        × ((raw : String) × (database (transaction s query) ≡ fetched (some raw))
            × IsRead raw plan)

    read-IsRead :
        (raw : String)
        → Ensures (read_plan numbers sqlglot text_of loads now database s raw) (IsRead raw)
    unfolding read_plan
    read-IsRead raw =
        Ensures-bind (demand (leb (byte_length raw) s.max_plan_response_bytes) _) _
          (λ x. leb (byte_length raw) s.max_plan_response_bytes ≡ true) (IsRead raw)
          (Ensures-demand (leb (byte_length raw) s.max_plan_response_bytes) _)
          λ x small.
            Ensures-map
              (normalized numbers sqlglot text_of
                (normalize_explain_json numbers sqlglot text_of s.limits (loads raw) now))
              (λ plan.
                normalize_explain_json numbers sqlglot text_of s.limits (loads raw) now ≡ ok plan)
              (IsRead raw)
              (λ plan e.
                let bounds = normalize_bounds numbers sqlglot text_of s.limits (loads raw) now e in
                (e, ground (arith, small), bounds.0, bounds.1))
              (normalized-Ensures _)

    executed-Ensures : (r : Executed) → Ensures (executed r) (λ raw. r ≡ fetched raw)
    executed-Ensures (fetched raw) = refl
    executed-Ensures (raised e) = translate-Ensures e (λ raw. raised e ≡ fetched raw)

    present-Ensures : (o : Option String) → Ensures (present o) (λ raw. o ≡ some raw)
    present-Ensures none = tt
    present-Ensures (some raw) =
        if_lem (λ o. Ensures o (λ r. some raw ≡ some r)) (raw == "") tt refl

    explain-Ensures :
        Ensures (explain numbers sqlglot text_of loads now database a s query) IsExplained
    unfolding explain
    explain-Ensures =
        Ensures-bind (demand (has_pool a.pool) _) _ (λ x. has_pool a.pool ≡ true) IsExplained
          (Ensures-demand (has_pool a.pool) _)
          λ x connected.
            Ensures-bind (executed (database (transaction s query))) _
              (λ raw. database (transaction s query) ≡ fetched raw) IsExplained
              (executed-Ensures (database (transaction s query)))
              λ raw_plan answered.
                Ensures-bind (present raw_plan) _ (λ raw. raw_plan ≡ some raw) IsExplained
                  (present-Ensures raw_plan)
                  λ raw there.
                    Ensures-map (read_plan numbers sqlglot text_of loads now database s raw)
                      (IsRead raw) IsExplained
                      (λ plan small. (connected, (raw, answered ∙ ap fetched there, small)))
                      (read-IsRead raw)

    -- A plan that `explain` returns is what `normalize_explain_json` makes, under the settings'
    -- limits, of a text of at most `max_plan_response_bytes` bytes, which the database gave for the
    -- transaction, over a pool; it has at most `max_plan_nodes` nodes and is at most
    -- `max_plan_depth` deep.
    pub explain-IsExplained :
        {plan : ParsedPlan Float}
        → explain numbers sqlglot text_of loads now database a s query ≡ returns plan
        → IsExplained plan
    explain-IsExplained h = Ensures-elim _ IsExplained explain-Ensures h
