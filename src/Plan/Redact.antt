-- ===== src/Plan/Redact.antt =====
-- `redact_literals` over a parser that the program imports (sqlglot).
use ezsql.Base.{
  ℕ, String, Bool, ◌||◌, Option, none, some, ltb, if◌then◌else◌, text_length, text_take,
}

pub record Literal : Type 0 where
  pub is_string : Bool
  pub is_int : Bool
  pub name : String

-- What the code uses of sqlglot: `parse_one(…, dialect="postgres")`, which is `none` if it raises;
-- the walk that replaces each literal node by a quoted identifier; and the rendering. `is_number`
-- is whether Python's `float(text)` accepts the text.
pub record Sqlglot : Type 1 where
  pub Ast : Type 0
  pub parse_one : String → Option Ast
  pub replace_literals : (Literal → String) → Ast → Ast
  pub to_sql : Ast → String
  pub is_number : String → Bool

abbrev pub unparsed : String
unparsed = "<redacted-unparsed-expression>"

module _ (sqlglot : Sqlglot) where
  open sqlglot use {Ast, parse_one, replace_literals, to_sql, is_number}

  -- The identifier that stands for a literal: it says no more than the literal's kind.
  pub placeholder : Literal → String
  placeholder l =
      if l.is_string
      then "<string>"
      else if l.is_int || is_number l.name
      then "<number>"
      else "<bytes>"

  pub rendered : Ast → ℕ → String
  rendered ast max_chars =
      let text = to_sql (replace_literals placeholder ast) in
      if ltb max_chars (text_length text) then text_take max_chars text else text

  unfoldable pub redact_literals : String → ℕ → String
  unfolding rendered placeholder
  redact_literals expression max_chars = elim (parse_one expression) [
    | none ↦ unparsed
    | some ast ↦ rendered ast max_chars
  ]
