-- ===== src/Tests/ConfigTests.antt =====
-- A value of a file is a number or a text; the section has one number out of range.
use ezsql.Base.{String, true, none, some, [], ◌∷◌, ◌≡◌, refl}
use ezsql.Base.Dict
use ezsql.Base.Dict.{Dict}
use ezsql.Base.Int.{ℤ, pos, negsuc}
use ezsql.Config.Validate.{
  number, validate_relational, no_set, Reader, Loaded, config, type_error, load_config, is_env_name,
  cap, clamp_numeric,
}
use ezsql.Config.Relations.{lock, statement, total, enrichment}
use ezsql.Config.Bounds.{IsInRange, load_config-IsInRange}

run : Unit {0}
unfolding number validate_relational load_config is_env_name cap clamp_numeric Dict.get Dict.set
run = tt

data Value : Type 0 where
  int : ℤ → Value
  text : String → Value

abbrev host : Reader Value
host = record {
  as_int = λ v. elim v [ int n ↦ some n | text s ↦ none ];
  as_str = λ v. elim v [ int n ↦ none | text s ↦ some s ];
  as_optional_str = λ v. elim v [ int n ↦ none | text s ↦ some (some s) ];
  as_bool = λ v. none;
  shape = λ v. no_set;
}

abbrev low_total : Dict String Value
low_total = ("explain_total_timeout_seconds", int (negsuc 4)) ∷ ("llm_model", text "m") ∷ []

-- The lock timeout is 5 and the statement timeout is cut down to 2.
loaded_number : String → Loaded → ℤ
loaded_number name (config c) = number name c.numbers
loaded_number name type_error = pos 0

lapses : loaded_number statement (load_config host true (some low_total)) ≡ pos 2
unfolding run loaded_number
lapses = refl

keeps_lock : loaded_number lock (load_config host true (some low_total)) ≡ pos 5
unfolding run loaded_number
keeps_lock = refl

raises : load_config host true (some (("ezsql", int (pos 5)) ∷ [])) ≡ type_error
unfolding run
raises = refl

line_break : is_env_name "A_1\n" ≡ true
unfolding run
line_break = refl

load_config-IsInRange_example : IsInRange (load_config host true (some low_total))
load_config-IsInRange_example = load_config-IsInRange host true (some low_total)

abbrev four : Dict String ℤ
four = (statement, pos 30) ∷ (total, pos 2) ∷ (enrichment, pos 90) ∷ (lock, pos 5) ∷ []
