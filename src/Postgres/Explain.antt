-- ===== src/Postgres/Explain.antt =====
-- db/postgres.py: `PostgresAdapter.explain`. The database and `json.loads` are parameters, as are
-- the numbers of JSON and the parser of core/sql/plan.
pub mod Bounds
pub mod Failures
use Prim.Native.Char.{code}
use ezsql.Base.{
  ℕ, ◌+◌, String, Bool, true, false, not, Option, none, some, List, [], ◌∷◌, ltb, leb, ◌==◌,
  string_eq, if◌then◌else◌, text_append, text_of_nat,
}
use ezsql.Plan.Json.{Numbers, Json}
use ezsql.Plan.Model.{ParsedPlan}
use ezsql.Plan.Redact.{Sqlglot}
use ezsql.Plan.Normalize.{
  Limits, Result, ok, err, parse_error, validation_error, number_error, normalize_explain_json,
}
use ezsql.Gate.{ExplainableQuery}
use ezsql.Postgres.Connect.{PostgresAdapter}
use ezsql.Postgres.Errors.{
  DbErrorCategory, DbAdapterError, db_connection_failed, explain_total_timeout, explain_timeout,
  db_internal_error, explain_parse_failed, plan_too_large, error, Outcome, returns, raises,
  raises_other, ◌>>=◌, demand,
}

abbrev pub explain_prefix : String
explain_prefix = "EXPLAIN (FORMAT JSON, COSTS TRUE, SUMMARY TRUE, SETTINGS TRUE"

abbrev pub generic_plan_suffix : String
generic_plan_suffix = ", GENERIC_PLAN TRUE"

-- The text that is sent.
unfoldable pub explain_sql : ExplainableQuery → String
unfolding text_append
explain_sql query =
    text_append
      (text_append
        (if query.has_placeholders
          then text_append explain_prefix generic_plan_suffix
          else explain_prefix)
        ") ")
      query.canonical_sql

-- A statement with its argument, and the transaction of three of them.
pub data Sent : Type 0 where
  set_config : String → String → Sent
  fetchval : String → Sent

pub record Transaction : Type 0 where
  pub readonly : Bool
  pub statements : List Sent

-- An exception: `isinstance`, with the name of its own class.
pub record Exception : Type 0 where
  pub isinstance : String → Bool
  pub name : String

-- How the work under the timeout ends.
pub data Executed : Type 0 where
  fetched : Option String → Executed
  raised : Exception → Executed

-- The settings of the adapter; the timeouts are in milliseconds, as texts.
pub record Settings : Type 0 where
  pub statement_timeout : String
  pub lock_timeout : String
  pub max_plan_response_bytes : ℕ
  pub limits : Limits

abbrev pub width : ℕ → ℕ
width c = if ltb c 128 then 1 else if ltb c 2048 then 2 else if ltb c 65536 then 3 else 4

-- `len(s.encode("utf-8"))`
unfoldable pub byte_length : String → ℕ
byte_length String.[] = 0
byte_length (String.◌∷◌ c s) = width (code c) + byte_length s

unfoldable pub transaction : Settings → ExplainableQuery → Transaction
unfolding explain_sql
transaction s query = record {
  readonly = true;
  statements =
      set_config "statement_timeout" (text_append s.statement_timeout "ms")
      ∷ set_config "lock_timeout" (text_append s.lock_timeout "ms")
      ∷ fetchval (explain_sql query)
      ∷ [];
}

abbrev pub driver : DbErrorCategory → String → Exception → DbAdapterError
driver category detail e = record {
  category = category;
  detail = detail;
  driver_exception = some e.name;
}

-- The `except` lines in their order.
unfoldable pub translate : Exception → Outcome (Option String)
translate e =
    if e.isinstance "TimeoutError"
    then raises (driver explain_total_timeout "operation timed out" e)
    else if e.isinstance "QueryCanceledError"
    then raises (driver explain_timeout "statement or lock timeout on the server" e)
    else if e.isinstance "InvalidPasswordError"
    then raises (driver db_connection_failed "authentication failed" e)
    else if e.isinstance "PostgresError"
    then raises (driver db_internal_error "EXPLAIN failed on the server" e)
    else if e.isinstance "OSError"
    then raises_other
    else if e.isinstance "CancelledError"
    then raises_other
    else if e.isinstance "Exception"
    then raises (driver db_connection_failed "operation failed" e)
    else raises_other

abbrev pub executed : Executed → Outcome (Option String)
executed (fetched raw) = returns raw
executed (raised e) = translate e

-- `if not raw_plan`
abbrev pub present : Option String → Outcome String
present none = raises (error explain_parse_failed "empty EXPLAIN response")
present (some s) =
    if s == "" then raises (error explain_parse_failed "empty EXPLAIN response") else returns s

abbrev pub has_pool : Option ℕ → Bool
has_pool none = false
has_pool (some pool) = true

module _ (numbers : Numbers) (sqlglot : Sqlglot) (text_of : Json numbers.Num → String) where
  open numbers use {Num, Float}

  -- `PlanParseError` is caught; its text is left out.
  abbrev pub normalized : Result (ParsedPlan Float) → Outcome (ParsedPlan Float)
  normalized (ok plan) = returns plan
  normalized (err parse_error) = raises (error explain_parse_failed "")
  normalized (err validation_error) = raises_other
  normalized (err number_error) = raises_other

  -- `loads` is `json.loads`, `none` where it raises; `now` is the time.
  module _ (loads : String → Option (Json Num)) (now : Float)
      (database : Transaction → Executed) where
    unfoldable pub read_plan : Settings → String → Outcome (ParsedPlan Float)
    unfolding byte_length text_append text_of_nat
    read_plan s raw =
        demand (leb (byte_length raw) s.max_plan_response_bytes) (
          error plan_too_large (
            text_append "EXPLAIN response exceeds max_plan_response_bytes ("
              (text_append (text_of_nat s.max_plan_response_bytes) ")")))
        >>= λ small.
            normalized (normalize_explain_json numbers sqlglot text_of s.limits (loads raw) now)

    unfoldable pub explain :
        PostgresAdapter → Settings → ExplainableQuery → Outcome (ParsedPlan Float)
    unfolding transaction translate read_plan
    explain a s query = do
      connected ← demand (has_pool a.pool) (error db_connection_failed "adapter is not connected")
      raw_plan ← executed (database (transaction s query))
      raw ← present raw_plan
      read_plan s raw
