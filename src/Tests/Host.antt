-- ===== src/Tests/Host.antt =====
-- Concrete values for what the program imports: numbers, and a parser of expressions.
use ezsql.Base.{◌*◌, ltb, false, none, some, ◌==◌, string_eq, if◌then◌else◌}
use ezsql.Base.Int.{ℤ, pos, ◌-ℤ◌, ltb_ℤ}
use ezsql.Plan.Json.{Numbers}
use ezsql.Plan.Redact.{Sqlglot, Literal}

-- Every number is an integer.
abbrev pub integers : Numbers
integers = record {
  Num = ℤ;
  Float = ℤ;
  num_of_bool = λ b. if b then pos 1 else pos 0;
  to_float = λ n. some n;
  to_int = λ n. some n;
  sub = λ a b. a -ℤ b;
  div = λ a b. a;
  mul = λ a b. a;
  hundred = pos 100;
  is_pos = λ a. ltb_ℤ (pos 0) a;
  exceeds_tenth = λ d o. ltb o (10 * d);
}

-- An expression is one literal: a number, or text if it is quoted.
abbrev pub literals : Sqlglot
literals = record {
  Ast = Literal;
  parse_one = λ s.
      if s == "" then none else some (record { is_string = false; is_int = s == "42"; name = s });
  replace_literals = λ f l. record l { name = f l };
  to_sql = λ l. l.name;
  is_number = λ s. s == "4.2";
}
