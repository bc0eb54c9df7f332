-- ===== src/Tests/GateTests.antt =====
-- Trees of one or two nodes, named by their classes.
use ezsql.Base.{
  String, true, false, none, some, List, [], ◌∷◌, ◌≡◌, ◌≤◌, refl, ◌==◌, string_eq, if◌then◌else◌,
  text_contains,
}
use Prim.Native.String.{len}
use ezsql.Gate.{
  parsed, Sqlglot, accepted, rejected, ExplainableQuery, validate_explainable_query,
  statement_blocked, for_lock,
}
use ezsql.Gate.Accepts.{OnlyReads, Gives, query_of, accepted_reads}

run : Unit {0}
unfolding validate_explainable_query text_contains
run = tt

-- A node is its class; a "Select" that locks has a "Lock" below it.
abbrev pub toy : Sqlglot (List String)
toy = record {
  parse = λ sql.
      if sql == "SELECT 1"
      then parsed (some ("Select" ∷ []) ∷ some ("Semicolon" ∷ []) ∷ [])
      else if sql == "SELECT 1 FOR SHARE"
      then parsed (some ("Select" ∷ "Lock" ∷ []) ∷ none ∷ [])
      else parsed [];
  has_class = λ name. true;
  isinstance = λ name n. elim n [ [] ↦ false | c ∷ below ↦ c == name ];
  type_name = λ n. elim n [ [] ↦ "" | c ∷ below ↦ c ];
  walk = λ n. elim n [
    | [] ↦ []
    | c ∷ below ↦ (c ∷ below) ∷ elim below [ [] ↦ [] | d ∷ more ↦ (d ∷ []) ∷ [] ]
  ];
  this = λ n. none;
  actions = λ n. some "SHARE";
  has_into = λ n. false;
  render = λ n. elim n [ [] ↦ "" | c ∷ below ↦ c ];
}

abbrev query : ExplainableQuery
query = record { canonical_sql = "Select"; has_placeholders = false }

accepts : validate_explainable_query toy "SELECT 1" 100 ≡ accepted query
unfolding run
accepts = refl

locked :
    validate_explainable_query toy "SELECT 1 FOR SHARE" 100
    ≡ rejected statement_blocked (for_lock "SHARE")
unfolding run
locked = refl

accepted_reads_example :
    (len "SELECT 1" ≤ 100)
    × ((stmt : List String) × Gives toy "SELECT 1" stmt
        × OnlyReads toy stmt
        × (query ≡ query_of toy stmt))
accepted_reads_example = accepted_reads toy "SELECT 1" 100 accepts
