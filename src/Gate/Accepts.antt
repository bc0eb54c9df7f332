-- ===== src/Gate/Accepts.antt =====
-- What the gate lets through (core/sql/explain_gate.py).
use Prim.Native.String.{len}
use ezsql.Base.{
  ℕ, String, Bool, true, false, ◌&&◌, Option, none, List, [], ◌∷◌, ◌≤◌, ◌≡◌, refl, arith, inl, inr,
  Bool-cases, Option-cases, All, ◌==◌, string_eq,
}
use ezsql.Gate.{
  Parsed, parsed, parse_error, crashed, Sqlglot, ExplainableQuery, accepted, any, first,
  query_roots, is_one_of, forbidden, find_locking, is_write, has_writable_cte, real_statements,
  check_nodes, check_statement, check_statements, check_parsed, validate_explainable_query,
}

any-All : {A : Type 0} (p : A → Bool) (l : List A) → any p l ≡ false → All (λ x. p x ≡ false) l
unfolding any
any-All p [] h = tt
any-All p (x ∷ l) h = elim (Bool-cases (p x)) [
  | inl hit ↦ absurd (cc (rw hit at h))
  | inr miss ↦ (let rest : any p l ≡ false = rw miss at h in (miss, any-All p l rest))
]

first-All : {A : Type 0} (p : A → Bool) (l : List A) → first p l ≡ none → All (λ x. p x ≡ false) l
unfolding first
first-All p [] h = tt
first-All p (x ∷ l) h = elim (Bool-cases (p x)) [
  | inl hit ↦ absurd (cc (rw hit at h))
  | inr miss ↦ (let rest : first p l ≡ none = rw miss at h in (miss, first-All p l rest))
]

module _ {N : Type 0} (sqlglot : Sqlglot N) where
  abbrev pub query_of : N → ExplainableQuery
  query_of stmt = record {
    canonical_sql = sqlglot.render stmt;
    has_placeholders = any (sqlglot.isinstance "Parameter") (sqlglot.walk stmt);
  }

  -- No node locks rows, is of a class that writes, or is a CTE over a write.
  abbrev pub OnlyReads : N → Type 0
  OnlyReads stmt =
      (is_one_of sqlglot query_roots stmt ≡ true)
      × All (λ n. sqlglot.isinstance "Lock" n ≡ false) (sqlglot.walk stmt)
      × All (λ n. is_one_of sqlglot (forbidden sqlglot) n ≡ false) (sqlglot.walk stmt)
      × All (λ n. (sqlglot.isinstance "CTE" n && is_write sqlglot (sqlglot.this n)) ≡ false)
          (sqlglot.walk stmt)

  nodes_lem :
      (stmt : N) (q : ExplainableQuery)
      → check_nodes sqlglot stmt ≡ accepted q
      → (first (is_one_of sqlglot (forbidden sqlglot)) (sqlglot.walk stmt) ≡ none)
        × (q ≡ query_of stmt)
  unfolding check_nodes
  nodes_lem stmt q h = ground (arith, h)

  unlocked_lem :
      (stmt : N)
      → find_locking sqlglot stmt ≡ none
      → first (sqlglot.isinstance "Lock") (sqlglot.walk stmt) ≡ none
  unfolding find_locking
  unlocked_lem stmt h =
      elim (Option-cases (first (sqlglot.isinstance "Lock") (sqlglot.walk stmt))) [
        | inl no_lock ↦ no_lock
        | inr lock ↦ absurd (cc (rw (find_locking, lock.1) at h))
      ]

  -- The tests that an accepted statement has passed.
  passed :
      (stmt : N) (q : ExplainableQuery)
      → check_statement sqlglot stmt ≡ accepted q
      → (is_one_of sqlglot query_roots stmt ≡ true)
        × (first (sqlglot.isinstance "Lock") (sqlglot.walk stmt) ≡ none)
        × (has_writable_cte sqlglot stmt ≡ false)
        × (check_nodes sqlglot stmt ≡ accepted q)
  unfolding check_statement
  passed stmt q h = elim (Bool-cases (sqlglot.type_name stmt == "Explain")) [
    | inl bad ↦ absurd (cc (rw bad at h))
    | inr a ↦ elim (Bool-cases (sqlglot.isinstance "Command" stmt)) [
      | inl bad ↦ absurd (cc (rw (a, bad) at h))
      | inr b ↦ elim (Bool-cases (is_one_of sqlglot query_roots stmt)) [
        | inr bad ↦ absurd (cc (rw (a, b, bad) at h))
        | inl c ↦ elim (Option-cases (find_locking sqlglot stmt)) [
          | inr bad ↦ absurd (cc (rw (a, b, c, bad.1) at h))
          | inl d ↦ elim (Bool-cases (has_writable_cte sqlglot stmt)) [
            | inl bad ↦ absurd (cc (rw (a, b, c, d, bad) at h))
            | inr e ↦ (c, unlocked_lem stmt d, e, rw (a, b, c, d, e) at h)
          ]
        ]
      ]
    ]
  ]

  statement_lem :
      (stmt : N) (q : ExplainableQuery)
      → check_statement sqlglot stmt ≡ accepted q
      → OnlyReads stmt × (q ≡ query_of stmt)
  unfolding has_writable_cte
  statement_lem stmt q h =
      let (root, unlocked, no_cte, nodes) = passed stmt q h in
      let (harmless, same) = nodes_lem stmt q nodes in
      (
        (
          root,
          first-All (sqlglot.isinstance "Lock") (sqlglot.walk stmt) unlocked,
          first-All (is_one_of sqlglot (forbidden sqlglot)) (sqlglot.walk stmt) harmless,
          any-All _ (sqlglot.walk stmt) no_cte,
        ),
        same,
      )

  -- What the parser gives is one statement, besides comments and nothing.
  abbrev pub Gives : String → N → Type 0
  Gives sql stmt =
      (l : List (Option N)) × (sqlglot.parse sql ≡ parsed l)
      × (real_statements sqlglot l ≡ stmt ∷ [])

  statements_lem :
      (l : List N) (q : ExplainableQuery)
      → check_statements sqlglot l ≡ accepted q
      → (stmt : N) × (l ≡ stmt ∷ []) × (check_statement sqlglot stmt ≡ accepted q)
  statements_lem [] q h = absurd (cc h)
  statements_lem (stmt ∷ []) q h = (stmt, refl, h)
  statements_lem (stmt ∷ other ∷ l) q h = absurd (cc h)

  parsed_lem :
      (sql : String) (q : ExplainableQuery) (p : Parsed N)
      → sqlglot.parse sql ≡ p
      → check_parsed sqlglot p ≡ accepted q
      → (stmt : N) × Gives sql stmt × OnlyReads stmt × (q ≡ query_of stmt)
  parsed_lem sql q (parsed l) same h =
      let (stmt, one, checks) = statements_lem (real_statements sqlglot l) q h in
      (let both = statement_lem stmt q checks in (stmt, (l, same, one), both.0, both.1))
  parsed_lem sql q (parse_error text) same h = absurd (cc h)
  parsed_lem sql q crashed same h = absurd (cc h)

  in_bounds :
      (sql : String) (max_bytes : ℕ) (q : ExplainableQuery)
      → validate_explainable_query sqlglot sql max_bytes ≡ accepted q
      → (len sql ≤ max_bytes) × (check_parsed sqlglot (sqlglot.parse sql) ≡ accepted q)
  unfolding validate_explainable_query
  in_bounds sql max_bytes q h = ground (arith, h)

  -- A text that the gate accepts has at most `max_bytes` bytes and parses to one statement. That
  -- statement is a query, and no node of its tree locks rows, is of a forbidden class, or is a CTE
  -- over a write. The text that goes on is the statement as it is rendered.
  pub accepted_reads :
      (sql : String) (max_bytes : ℕ) {q : ExplainableQuery}
      → validate_explainable_query sqlglot sql max_bytes ≡ accepted q
      → (len sql ≤ max_bytes) × ((stmt : N) × Gives sql stmt × OnlyReads stmt × (q ≡ query_of stmt))
  unfolding validate_explainable_query
  accepted_reads sql max_bytes {q} h =
      let (fits, checks) = in_bounds sql max_bytes q h in
      (fits, parsed_lem sql q (sqlglot.parse sql) refl checks)
