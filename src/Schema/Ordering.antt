-- ===== src/Schema/Ordering.antt =====
-- core/schema/ddl.py: the order of migration files by the version in their names.
pub mod Sound
use Prim.Native.Char.{code}
use ezsql.Base.{
  ℕ, suc, String, Bool, true, false, ◌&&◌, ◌||◌, not, Option, none, some, List, [], ◌∷◌, ◌++◌, map,
  ltb, leb, nat_beq, ◌==◌, string_eq, if◌then◌else◌, select, is_nil, text_length, text_le,
}
use ezsql.Base.Dict
use ezsql.Base.Dict.{Dict}
use ezsql.Base.Sorting.{sorted}

pub data Convention : Type 0 where
  numeric flyway date timestamp : Convention

-- A letter with its other case; under IGNORECASE the long s is an s too.
abbrev pub is_s : ℕ → Bool
is_s c = nat_beq c b's' || nat_beq c b'S' || nat_beq c 383

abbrev pub is_q : ℕ → Bool
is_q c = nat_beq c b'q' || nat_beq c b'Q'

abbrev pub is_l : ℕ → Bool
is_l c = nat_beq c b'l' || nat_beq c b'L'

abbrev pub is_v : ℕ → Bool
is_v c = nat_beq c b'v' || nat_beq c b'V'

-- The end, or a line break at the end, where `$` matches.
abbrev pub at_end : String → Bool
at_end String.[] = true
at_end (String.◌∷◌ c s) = nat_beq (code c) 10 && s == ""

-- `\.sql$`
unfoldable pub is_suffix : String → Bool
is_suffix (String.◌∷◌ p (String.◌∷◌ s (String.◌∷◌ q (String.◌∷◌ l rest)))) =
    nat_beq (code p) b'.' && (is_s (code s) && (is_q (code q) && (is_l (code l) && at_end rest)))
is_suffix _ = false

-- `.*\.sql$`; the point matches no line break.
unfoldable pub ends_sql : String → Bool
unfolding is_suffix
ends_sql String.[] = false
ends_sql (String.◌∷◌ c s) = is_suffix (String.◌∷◌ c s) || not (nat_beq (code c) 10) && ends_sql s

-- The parts of a text at its last slash: `path.rsplit("/", 1)[-1]`.
unfoldable pub has_slash : String → Bool
has_slash String.[] = false
has_slash (String.◌∷◌ c s) = nat_beq (code c) b'/' || has_slash s

unfoldable pub filename : String → String
unfolding has_slash
filename String.[] = String.[]
filename (String.◌∷◌ c s) =
    let rest = filename s in
    if has_slash s then rest else if nat_beq (code c) b'/' then s else String.◌∷◌ c s

-- `lstrip("0")`
unfoldable pub strip_zeros : String → String
strip_zeros String.[] = String.[]
strip_zeros (String.◌∷◌ c s) =
    let rest = strip_zeros s in if nat_beq (code c) b'0' then rest else String.◌∷◌ c s

-- `or "0"`
abbrev pub or_zero : String → String
or_zero String.[] = "0"
or_zero (String.◌∷◌ c s) = String.◌∷◌ c s

-- A file with its contents, and one with its convention.
abbrev pub File : Type 0
File = String × String

-- What is returned where no order is determined, with the parts of its text.
pub data Ambiguity : Type 0 where
  ambiguous_migration_conventions : List Convention → Ambiguity
  duplicate_migration_version : String → String → String → Ambiguity

pub data Ordered : Type 0 where
  ordered : List File → Ordered
  ambiguous : Ambiguity → Ordered

abbrev pub rank : Convention → ℕ
rank numeric = 0
rank flyway = 1
rank date = 2
rank timestamp = 3

-- `is_decimal` is what `\d` matches: the host's table of decimal digits, on code points.
module _ (is_decimal : ℕ → Bool) where
  -- The decimal digits that a text begins with, and what follows them.
  unfoldable pub digits : String → String × String
  digits String.[] = (String.[], String.[])
  digits (String.◌∷◌ c s) =
      let (ds, rest) = digits s in
      if is_decimal (code c) then (String.◌∷◌ c ds, rest) else (String.[], String.◌∷◌ c s)

  -- `_.*\.sql$`
  abbrev pub after_underscore : String → Bool
  after_underscore String.[] = false
  after_underscore (String.◌∷◌ c s) = nat_beq (code c) b'_' && ends_sql s

  -- `__.*\.sql$`
  abbrev pub after_underscores : String → Bool
  after_underscores String.[] = false
  after_underscores (String.◌∷◌ c s) = nat_beq (code c) b'_' && after_underscore s

  -- The version of a name that begins with digits; the test is of their number.
  unfoldable pub numbered : (ℕ → Bool) → String → Option String
  unfolding digits ends_sql
  numbered fits name =
      let (ds, rest) = digits name in
      if fits (text_length ds) && after_underscore rest then some ds else none

  abbrev pub is_some : Option String → Bool
  is_some none = false
  is_some (some _) = true

  -- `_FLYWAY_PATTERN`
  unfoldable pub flyway_version : String → Option String
  unfolding digits ends_sql
  flyway_version String.[] = none
  flyway_version (String.◌∷◌ c s) =
      let (ds, rest) = digits s in
      if is_v (code c) && (ltb 0 (text_length ds) && after_underscores rest) then some ds else none

  -- The version by the pattern of a convention.
  unfoldable pub version : Convention → String → Option String
  unfolding numbered flyway_version
  version numeric name = numbered (ltb 0) name
  version flyway name = flyway_version name
  version date name = numbered (nat_beq 8) name
  version timestamp name = numbered (nat_beq 10) name

  -- `_detect_convention`
  unfoldable pub detect_convention : String → Option Convention
  unfolding version
  detect_convention name =
      if is_some (version date name)
      then some date
      else if is_some (version timestamp name)
      then some timestamp
      else if is_some (version flyway name)
      then some flyway
      else if is_some (version numeric name)
      then some numeric
      else none

  abbrev pub sort_text : Convention → Option String → String
  sort_text convention none = "0"
  sort_text numeric (some ds) = or_zero (strip_zeros ds)
  sort_text flyway (some ds) = or_zero (strip_zeros ds)
  sort_text date (some ds) = ds
  sort_text timestamp (some ds) = ds

  -- `_extract_sort_key`
  unfoldable pub extract_sort_key : String → Convention → String
  unfolding version strip_zeros
  extract_sort_key name convention = sort_text convention (version convention name)

  -- The files whose names are of a convention.
  unfoldable pub candidates : List File → List (File × Convention)
  unfolding detect_convention filename
  candidates [] = []
  candidates (file ∷ files) = elim (detect_convention (filename file.0)) [
    | none ↦ candidates files
    | some convention ↦ (file, convention) ∷ candidates files
  ]

  -- The other conventions than the first.
  unfoldable pub others : Convention → List (File × Convention) → List Convention
  others convention [] = []
  others convention ((file, c) ∷ l) =
      if nat_beq (rank c) (rank convention) then others convention l else c ∷ others convention l

  -- The key of a file under one convention.
  unfoldable pub key_of : Convention → File × Convention → String
  unfolding extract_sort_key filename
  key_of convention c = extract_sort_key (filename c.0.0) convention

  -- The loop over the keys: the first version that is there already, with both paths.
  unfoldable pub duplicate :
      Convention → Dict String String → List (File × Convention) → Option Ambiguity
  unfolding key_of
  duplicate convention sort_keys [] = none
  duplicate convention sort_keys (c ∷ l) = elim (Dict.get (key_of convention c) sort_keys) [
    | some path ↦ some (duplicate_migration_version (key_of convention c) path c.0.0)
    | none ↦ duplicate convention (Dict.set (key_of convention c) c.0.0 sort_keys) l
  ]

  abbrev pub key_le : Convention → File × Convention → File × Convention → Bool
  key_le convention a b = text_le (key_of convention a) (key_of convention b)

  -- `_order_migrations`, of the candidates under the first one's convention.
  unfoldable pub order_candidates : Convention → List (File × Convention) → Ordered
  unfolding duplicate others sorted
  order_candidates convention l =
      if is_nil (others convention l)
      then elim (duplicate convention [] l) [
        | some clash ↦ ambiguous clash
        | none ↦ ordered (map (λ c. c.0) (sorted (key_le convention) l))
      ]
      else ambiguous (ambiguous_migration_conventions (convention ∷ others convention l))

  abbrev pub order_all : List (File × Convention) → Ordered
  order_all [] = ordered []
  order_all (c ∷ l) = order_candidates c.1 (c ∷ l)

  unfoldable pub order_migrations : List File → Ordered
  unfolding candidates order_candidates
  order_migrations files = order_all (candidates files)
