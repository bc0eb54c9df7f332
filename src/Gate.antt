-- ===== src/Gate.antt =====
-- src/ezsql/core/sql/explain_gate.py: which text may be sent to the planner. The parser and its
-- tree are sqlglot's, so they are a parameter.
pub mod Accepts
use Prim.Native.Char.{code}
use Prim.Native.String.{len}
use ezsql.Base.{
  ℕ, String, Bool, true, false, ◌&&◌, ◌||◌, not, Option, none, some, List, [], ◌∷◌, ltb, leb,
  nat_beq, ◌==◌, string_eq, if◌then◌else◌, select, length, text_contains,
}

-- What `sqlglot.parse` ends with: its statements, some of them none, a `ParseError` with its text,
-- or another exception.
pub data Parsed (N : Type 0) : Type 0 where
  parsed : List (Option N) → Parsed N
  parse_error : String → Parsed N
  crashed : Parsed N

-- What the gate uses of sqlglot, with `N` the nodes of its trees. A class is named without `exp.`.
pub record Sqlglot (N : Type 0) : Type 0 where
  pub parse : String → Parsed N
  pub has_class : String → Bool
  pub isinstance : String → N → Bool
  pub type_name : N → String
  pub walk : N → List N
  pub this : N → Option N
  -- `node.args.get("actions")`, rendered and in upper case
  pub actions : N → Option String
  -- `stmt.args.get("into") is not None`
  pub has_into : N → Bool
  pub render : N → String

pub record ExplainableQuery : Type 0 where
  pub canonical_sql : String
  pub has_placeholders : Bool

-- The details, with what their texts quote.
pub data Detail : Type 0 where
  empty_input sql_too_long not_parsed explicit_explain writable_cte select_into locking : Detail
  parse_failed unsupported not_a_query for_lock forbidden_node : String → Detail
  not_one_statement : ℕ → Detail

pub data Reason : Type 0 where
  statement_blocked input_too_large : Reason

pub data Verdict : Type 0 where
  accepted : ExplainableQuery → Verdict
  rejected : Reason → Detail → Verdict

-- `str.isspace` of one character, by its code point.
abbrev pub is_space : ℕ → Bool
is_space c =
    leb 9 c && leb c 13
    || leb 28 c && leb c 32
    || nat_beq c 133
    || nat_beq c 160
    || nat_beq c 5760
    || leb 8192 c && leb c 8202
    || nat_beq c 8232
    || nat_beq c 8233
    || nat_beq c 8239
    || nat_beq c 8287
    || nat_beq c 12288

-- `not sql or not sql.strip()`
unfoldable pub is_blank : String → Bool
is_blank String.[] = true
is_blank (String.◌∷◌ c s) = is_space (code c) && is_blank s

unfoldable pub any {ℓ} : {A : Type ℓ} → (A → Bool) → List A → Bool
any p [] = false
any p (x ∷ xs) = p x || any p xs

-- The first element that passes.
unfoldable pub first {ℓ} : {A : Type ℓ} → (A → Bool) → List A → Option A
first p [] = none
first p (x ∷ xs) = if p x then some x else first p xs

-- `_QUERY_ROOTS`
abbrev pub query_roots : List String
query_roots = "Select" ∷ "Union" ∷ "Intersect" ∷ "Except" ∷ "Subquery" ∷ []

-- `_FORBIDDEN_NODE_NAMES`
abbrev pub forbidden_node_names : List String
forbidden_node_names =
    "Insert" ∷ "Update" ∷ "Delete" ∷ "Merge" ∷ "Create" ∷ "Drop" ∷ "Alter" ∷ "TruncateTable"
    ∷ "Command" ∷ "Into" ∷ "Copy" ∷ "Transaction" ∷ "Commit" ∷ "Rollback" ∷ "Savepoint" ∷ "Grant"
    ∷ "Revoke" ∷ "Analyze" ∷ "Vacuum" ∷ "Refresh" ∷ "Call" ∷ "LoadData" ∷ "Load" ∷ "Set" ∷ "SetItem"
    ∷ []

-- `_LOCK_ACTIONS`, a set; the order only chooses among the texts of a rejection.
abbrev pub lock_actions : List String
lock_actions = "UPDATE" ∷ "SHARE" ∷ "NO KEY UPDATE" ∷ "KEY SHARE" ∷ []

module _ {N : Type 0} (sqlglot : Sqlglot N) where
  -- `isinstance` with a tuple of classes.
  abbrev pub is_one_of : List String → N → Bool
  is_one_of classes n = any (λ name. sqlglot.isinstance name n) classes

  -- `_FORBIDDEN`
  abbrev pub forbidden : List String
  forbidden = select (λ name. sqlglot.has_class name) forbidden_node_names

  -- `_find_locking`
  abbrev pub lock_detail : Option String → Detail
  lock_detail none = locking
  lock_detail (some rendered) = elim (first (λ lock. text_contains lock rendered) lock_actions) [
    | none ↦ locking
    | some lock ↦ for_lock lock
  ]

  unfoldable pub find_locking : N → Option Detail
  unfolding first text_contains
  find_locking stmt = elim (first (sqlglot.isinstance "Lock") (sqlglot.walk stmt)) [
    | none ↦ none
    | some node ↦ some (lock_detail (sqlglot.actions node))
  ]

  abbrev pub is_write : Option N → Bool
  is_write none = false
  is_write (some n) = is_one_of ("Insert" ∷ "Update" ∷ "Delete" ∷ []) n

  -- `_has_writable_cte`
  unfoldable pub has_writable_cte : N → Bool
  unfolding any
  has_writable_cte stmt =
      any (λ node. sqlglot.isinstance "CTE" node && is_write (sqlglot.this node))
        (sqlglot.walk stmt)

  -- The statements that are neither none nor only comments.
  unfoldable pub real_statements : List (Option N) → List N
  real_statements [] = []
  real_statements (none ∷ l) = real_statements l
  real_statements (some s ∷ l) =
      if sqlglot.isinstance "Semicolon" s then real_statements l else s ∷ real_statements l

  -- The deep walk and what follows it.
  unfoldable pub check_nodes : N → Verdict
  unfolding any first
  check_nodes stmt = elim (first (is_one_of forbidden) (sqlglot.walk stmt)) [
    | some node ↦ rejected statement_blocked (forbidden_node (sqlglot.type_name node))
    | none ↦
        if sqlglot.isinstance "Select" stmt && sqlglot.has_into stmt
        then rejected statement_blocked select_into
        else accepted (record {
          canonical_sql = sqlglot.render stmt;
          has_placeholders = any (sqlglot.isinstance "Parameter") (sqlglot.walk stmt);
        })
  ]

  unfoldable pub check_statement : N → Verdict
  unfolding find_locking has_writable_cte check_nodes
  check_statement stmt =
      if sqlglot.type_name stmt == "Explain"
      then rejected statement_blocked explicit_explain
      else if sqlglot.isinstance "Command" stmt
      then rejected statement_blocked (unsupported (sqlglot.type_name stmt))
      else if not (is_one_of query_roots stmt)
      then rejected statement_blocked (not_a_query (sqlglot.type_name stmt))
      else elim (find_locking stmt) [
        | some lock ↦ rejected statement_blocked lock
        | none ↦
            if has_writable_cte stmt
            then rejected statement_blocked writable_cte
            else check_nodes stmt
      ]

  abbrev pub check_statements : List N → Verdict
  check_statements (stmt ∷ []) = check_statement stmt
  check_statements l = rejected statement_blocked (not_one_statement (length l))

  abbrev pub check_parsed : Parsed N → Verdict
  check_parsed (parsed statements) = check_statements (real_statements statements)
  check_parsed (parse_error text) = rejected statement_blocked (parse_failed text)
  check_parsed crashed = rejected statement_blocked not_parsed

  unfoldable pub validate_explainable_query : String → ℕ → Verdict
  unfolding is_blank real_statements check_statement
  validate_explainable_query sql max_bytes =
      if is_blank sql
      then rejected statement_blocked empty_input
      else if ltb max_bytes (len sql)
      then rejected input_too_large sql_too_long
      else check_parsed (sqlglot.parse sql)
