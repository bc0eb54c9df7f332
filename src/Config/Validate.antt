-- ===== src/Config/Validate.antt =====
-- config.py: validation of a section of the settings' file. What pydantic and tomllib make of a
-- value is a parameter; what raises is a value of `Loaded`.
use Prim.Native.Char.{code}
use ezsql.Base.{
  ℕ, String, Bool, true, false, ◌&&◌, ◌||◌, not, Option, none, some, List, [], ◌∷◌, map, leb,
  nat_beq, ◌==◌, string_eq, if◌then◌else◌, select, is_nil, is_in,
}
use ezsql.Base.Dict
use ezsql.Base.Dict.{Dict}
use ezsql.Base.Int.{ℤ, pos, ltb_ℤ}
use ezsql.Config.Fields.{clamp_ranges, number_defaults}

-- The numeric fields stand in one dictionary under their names.
pub record EzsqlConfig : Type 0 where
  pub project_root : Option String
  pub default_dialect : String
  pub database_url_env : String
  pub llm_api_key_env : String
  pub llm_model : String
  pub allow_writes : Bool
  pub numbers : Dict String ℤ

-- `EzsqlConfig()`. Pydantic does not validate defaults; the relations hold of them as they are.
abbrev pub defaults : EzsqlConfig
defaults = record {
  project_root = none;
  default_dialect = "postgres";
  database_url_env = "DATABASE_URL";
  llm_api_key_env = "OPENAI_API_KEY";
  llm_model = "openai/gpt-4o-mini";
  allow_writes = false;
  numbers = number_defaults;
}

-- `self.name`
unfoldable pub number : String → Dict String ℤ → ℤ
number name numbers = elim (Dict.get name numbers) [ none ↦ pos 0 | some v ↦ v ]

abbrev pub into : Option (ℕ × ℕ) → ℤ → ℤ
into none v = v
into (some (lo, hi)) v = if ltb_ℤ v (pos lo) then pos lo else if ltb_ℤ (pos hi) v then pos hi else v

-- `_clamp_numeric`
unfoldable pub clamp_numeric : String → ℤ → ℤ
clamp_numeric field_name v = into (Dict.get field_name clamp_ranges) v

abbrev pub is_letter : ℕ → Bool
is_letter c = leb b'A' c && leb c b'Z' || leb b'a' c && leb c b'z' || nat_beq c b'_'

abbrev pub is_digit : ℕ → Bool
is_digit c = leb b'0' c && leb c b'9'

-- `[A-Za-z0-9_]*$`: the end may stand before a last line break.
unfoldable pub is_name_rest : String → Bool
is_name_rest String.[] = true
is_name_rest (String.◌∷◌ c s) =
    (is_letter (code c) || is_digit (code c)) && is_name_rest s || nat_beq (code c) 10 && s == ""

-- `_ENV_NAME_PATTERN.match`
unfoldable pub is_env_name : String → Bool
unfolding is_name_rest
is_env_name String.[] = false
is_env_name (String.◌∷◌ c s) = is_letter (code c) && is_name_rest s

-- `if self.a > self.b: self.a = self.b`
unfoldable pub cap : String → String → Dict String ℤ → Dict String ℤ
cap a b numbers =
    if ltb_ℤ (number b numbers) (number a numbers)
    then Dict.set a (number b numbers) numbers
    else numbers

-- `_validate_relational`
unfoldable pub validate_relational : Dict String ℤ → Dict String ℤ
validate_relational numbers =
    cap "explain_total_timeout_seconds" "runtime_enrichment_timeout_seconds" (
      cap "explain_statement_timeout_seconds" "explain_total_timeout_seconds" (
        cap "db_acquire_timeout_seconds" "explain_total_timeout_seconds" (
          cap "db_connect_timeout_seconds" "explain_total_timeout_seconds" (
            cap "explain_lock_timeout_seconds" "explain_statement_timeout_seconds"
              (cap "db_pool_min_size" "db_pool_max_size" numbers)))))

-- What a value of the file is where a section is expected.
pub data Shape (V : Type 0) : Type 0 where
  table : Dict String V → Shape V
  -- a text or a list of hashable values
  sequence : Shape V
  -- anything else: `set(section)` raises
  no_set : Shape V

-- The host's reading of a value as a field of each type, `none` where it is refused.
pub record Reader (V : Type 0) : Type 0 where
  pub as_int : V → Option ℤ
  pub as_str : V → Option String
  pub as_optional_str : V → Option (Option String)
  pub as_bool : V → Option Bool
  pub shape : V → Shape V

pub data Loaded : Type 0 where
  config : EzsqlConfig → Loaded
  type_error : Loaded

infixl 5 ◌>>=◌
abbrev pub ◌>>=◌ : {A B : Type 0} → Option A → (A → Option B) → Option B
none >>= f = none
some a >>= f = f a

-- `EzsqlConfig.model_fields`
abbrev pub known_fields : List String
known_fields =
    "project_root"
    ∷ "default_dialect"
    ∷ "database_url_env"
    ∷ "llm_api_key_env"
    ∷ "llm_model"
    ∷ "allow_writes"
    ∷ map (λ kv. kv.0) number_defaults

-- A field: its default where the section does not have it, and else what is read.
abbrev pub field : {A V : Type 0} → (V → Option A) → A → Option V → Option A
field read default none = some default
field read default (some v) = read v

-- A text that names an environment variable.
abbrev pub env_name : Option String → Option String
env_name none = none
env_name (some v) = if is_env_name v then some v else none

abbrev pub or_defaults : Option EzsqlConfig → EzsqlConfig
or_defaults none = defaults
or_defaults (some c) = c

module _ {V : Type 0} (reader : Reader V) where
  abbrev pub read_env_name : V → Option String
  read_env_name v = env_name (reader.as_str v)

  -- The numeric fields that are given are clamped; the defaults are taken as they are.
  unfoldable pub read_numbers : Dict String V → Dict String ℤ → Option (Dict String ℤ)
  read_numbers section [] = some []
  read_numbers section ((name, default) ∷ rest) = do
    v ←
        field (λ v. reader.as_int v >>= λ n. some (clamp_numeric name n)) default
          (Dict.get name section)
    vs ← read_numbers section rest
    some ((name, v) ∷ vs)

  -- `EzsqlConfig.model_validate(section)`, `none` where it raises.
  unfoldable pub model_validate : Dict String V → Option EzsqlConfig
  unfolding read_numbers validate_relational is_env_name
  model_validate section = do
    project_root ← field reader.as_optional_str none (Dict.get "project_root" section)
    default_dialect ← field reader.as_str "postgres" (Dict.get "default_dialect" section)
    database_url_env ← field read_env_name "DATABASE_URL" (Dict.get "database_url_env" section)
    llm_api_key_env ← field read_env_name "OPENAI_API_KEY" (Dict.get "llm_api_key_env" section)
    llm_model ← field reader.as_str "openai/gpt-4o-mini" (Dict.get "llm_model" section)
    allow_writes ← field reader.as_bool false (Dict.get "allow_writes" section)
    numbers ← read_numbers section number_defaults
    some (record {
      project_root = project_root;
      default_dialect = default_dialect;
      database_url_env = database_url_env;
      llm_api_key_env = llm_api_key_env;
      llm_model = llm_model;
      allow_writes = allow_writes;
      numbers = validate_relational numbers;
    })

  -- `set(section) - known_fields`
  unfoldable pub unknown : Dict String V → List String
  unfolding is_in
  unknown section = select (λ name. not (is_in name known_fields)) (map (λ kv. kv.0) section)

  unfoldable pub load_section : Shape V → Loaded
  unfolding unknown model_validate
  load_section (table section) =
      if is_nil (unknown section)
      then config (or_defaults (model_validate section))
      else config defaults
  load_section sequence = config defaults
  load_section no_set = type_error

  -- `raw.get("ezsql", raw)`
  abbrev pub section_of : Dict String V → Option V → Shape V
  section_of raw none = table raw
  section_of raw (some v) = reader.shape v

  -- `load_config`, given whether the file is there and what it parses to, `none` where that fails.
  unfoldable pub load_config : Bool → Option (Dict String V) → Loaded
  unfolding load_section
  load_config false raw = config defaults
  load_config true none = config defaults
  load_config true (some raw) = load_section (section_of raw (Dict.get "ezsql" raw))
