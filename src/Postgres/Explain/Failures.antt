-- ===== src/Postgres/Explain/Failures.antt =====
-- How `explain` fails (db/postgres.py).
use ezsql.Base.{
  String, Bool, true, false, Option, none, some, leb, ◌==◌, ◌≡◌, ◌⊎◌, refl, inl, inr, if_lem,
  string_eq,
}
use ezsql.Plan.Json.{Numbers, Json}
use ezsql.Plan.Model.{ParsedPlan}
use ezsql.Plan.Redact.{Sqlglot}
use ezsql.Plan.Normalize.{Result, ok, err, parse_error, validation_error, number_error}
use ezsql.Gate.{ExplainableQuery}
use ezsql.Postgres.Connect.{PostgresAdapter}
use ezsql.Postgres.Errors.{
  DbErrorCategory, DbAdapterError, db_connection_failed, explain_total_timeout, explain_timeout,
  db_internal_error, explain_parse_failed, plan_too_large, Outcome, raises, demand, Fails,
  Fails-bind, Fails-demand, Fails-elim,
}
use ezsql.Postgres.Explain.{
  Settings, Transaction, Executed, fetched, raised, Exception, has_pool, byte_length, transaction,
  translate, executed, present, normalized, read_plan, explain,
}

-- The categories of an EXPLAIN; `db_acquire_timeout` is none of them.
abbrev pub is_explain_category : DbErrorCategory → Bool
is_explain_category db_connection_failed = true
is_explain_category explain_total_timeout = true
is_explain_category explain_timeout = true
is_explain_category db_internal_error = true
is_explain_category explain_parse_failed = true
is_explain_category plan_too_large = true
is_explain_category _ = false

-- The category is one of an EXPLAIN, and what is said of the driver is the class of the exception
-- that ended the work.
abbrev pub IsTyped : Executed → DbAdapterError → Type 0
IsTyped r e =
    (is_explain_category e.category ≡ true)
    × ((e.driver_exception ≡ none)
        ⊎ ((x : Exception) × (r ≡ raised x) × (e.driver_exception ≡ some x.name)))

translate-Fails : (x : Exception) → Fails (translate x) (IsTyped (raised x))
unfolding translate
translate-Fails x =
    let P = λ (o : Outcome (Option String)). Fails o (IsTyped (raised x)) in
    if_lem P (x.isinstance "TimeoutError") (refl, inr (x, refl, refl))
      (if_lem P (x.isinstance "QueryCanceledError") (refl, inr (x, refl, refl))
        (if_lem P (x.isinstance "InvalidPasswordError") (refl, inr (x, refl, refl))
          (if_lem P (x.isinstance "PostgresError") (refl, inr (x, refl, refl))
            (if_lem P (x.isinstance "OSError") tt (
              if_lem P (x.isinstance "CancelledError") tt
                (if_lem P (x.isinstance "Exception") (refl, inr (x, refl, refl)) tt))))))

executed-Fails : (r : Executed) → Fails (executed r) (IsTyped r)
executed-Fails (fetched raw) = tt
executed-Fails (raised x) = translate-Fails x

present-Fails : (r : Executed) (o : Option String) → Fails (present o) (IsTyped r)
present-Fails r none = (refl, inl refl)
present-Fails r (some raw) =
    if_lem (λ (o : Outcome String). Fails o (IsTyped r)) (raw == "") (refl, inl refl) tt

module _ (numbers : Numbers) (sqlglot : Sqlglot) (text_of : Json numbers.Num → String) where
  open numbers use {Num, Float}

  normalized-Fails :
      (r : Executed) (p : Result (ParsedPlan Float))
      → Fails (normalized numbers sqlglot text_of p) (IsTyped r)
  normalized-Fails r (ok plan) = tt
  normalized-Fails r (err parse_error) = (refl, inl refl)
  normalized-Fails r (err validation_error) = tt
  normalized-Fails r (err number_error) = tt

  module _ (loads : String → Option (Json Num)) (now : Float) (database : Transaction → Executed)
      (a : PostgresAdapter) (s : Settings) (query : ExplainableQuery) where
    read-Fails :
        (r : Executed) (raw : String)
        → Fails (read_plan numbers sqlglot text_of loads now database s raw) (IsTyped r)
    unfolding read_plan
    read-Fails r raw =
        Fails-bind (demand (leb (byte_length raw) s.max_plan_response_bytes) _) _ (IsTyped r)
          (Fails-demand (leb (byte_length raw) s.max_plan_response_bytes) _ (IsTyped r)
            (refl, inl refl))
          λ small. normalized-Fails r _

    explain-Fails :
        Fails
          (explain numbers sqlglot text_of loads now database a s query)
          (IsTyped (database (transaction s query)))
    unfolding explain
    explain-Fails =
        let r = database (transaction s query) in
        Fails-bind (demand (has_pool a.pool) _) _ (IsTyped r)
          (Fails-demand (has_pool a.pool) _ (IsTyped r) (refl, inl refl))
          λ connected. Fails-bind (executed r) _ (IsTyped r) (executed-Fails r) λ raw_plan.
            Fails-bind (present raw_plan) _ (IsTyped r) (present-Fails r raw_plan)
              λ raw. read-Fails r raw

    -- An error that `explain` raises has one of six categories, and names no cause or the class of
    -- the exception that ended the work.
    pub explain-IsTyped :
        {e : DbAdapterError}
        → explain numbers sqlglot text_of loads now database a s query ≡ raises e
        → IsTyped (database (transaction s query)) e
    explain-IsTyped h =
        Fails-elim (explain numbers sqlglot text_of loads now database a s query)
          (IsTyped (database (transaction s query))) explain-Fails h
