-- ===== src/Tests/KeysTests.antt =====
-- Two plans asked for with one text, and a list of candidates whose join is that of another.
use ezsql.Base.{
  ℕ, String, Option, none, some, [], ◌∷◌, ◌≡◌, refl, text_append, text_take, text_le, text_of_nat, has_char,
}
use ezsql.Base.Sorting.{sorted, insert_sorted}
use ezsql.Keys.{part, text_join, serialized, number_or_empty, runtime_evidence_parts}
use ezsql.Keys.Decode.{decode, split_bars, split_equal}
use ezsql.Keys.Separate.{explain_separates}

run : Unit {0}
unfolding part text_join serialized sorted insert_sorted text_append text_le text_of_nat has_char
    split_bars split_equal
run = tt

abbrev plain : ℕ → String → String
plain size s = s

abbrev query : String
query = "SELECT 1"

abbrev database : String
database = "db"

abbrev ddl : String
ddl = "ddl"

-- A digest under which two queries collide, so that the inputs differ and their texts do not.
abbrev short : ℕ → String → String
short size s = text_take 6 s

abbrev other_query : String
other_query = "SELECT 2"

explain_separates_example :
    (short 16 query ≡ short 16 other_query)
    × (database ≡ database)
    × (ddl ≡ ddl)
    × (◌≡◌ {A = Option ℕ} (some 16) (some 16))
unfolding run
explain_separates_example =
    explain_separates short (some "27") query database ddl (some 16) other_query database ddl
      (some 16) refl (refl, refl, refl) (refl, refl, refl) refl

read_back : decode "a=1|b=2=3" ≡ ("a", "1") ∷ ("b", "2=3") ∷ []
unfolding run
read_back = refl

-- A candidate's text may have a bar, so two candidates and one may have the same key.
same_candidates :
    serialized
      (runtime_evidence_parts plain (some "27") "k" "db" "" ("h:SELECT a" ∷ "b" ∷ []) [] none)
    ≡ serialized
        (runtime_evidence_parts plain (some "27") "k" "db" "" ("h:SELECT a|b" ∷ []) [] none)
unfolding run
same_candidates = refl
