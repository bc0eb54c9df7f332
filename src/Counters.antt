-- ===== src/Counters.antt =====
-- src/ezsql/observability.py: the registry of counters and the redaction of log events. The logger
-- itself is structlog's.
use ezsql.Base.{
  ℕ, ◌+◌, String, Option, none, some, List, [], ◌∷◌, ◌==◌, string_eq, is_in, ◌≡◌, refl, ap,
  if◌then◌else◌, arith, inl, inr, Bool-cases,
}
use ezsql.Base.Dict
use ezsql.Base.Dict.{Dict}

abbrev pub Counts : Type 0
Counts = Dict String ℕ

abbrev pub or_zero : Option ℕ → ℕ
or_zero none = 0
or_zero (some n) = n

unfoldable pub get : Counts → String → ℕ
get counts name = or_zero (Dict.get name counts)

-- `self._counts[name] += n`, of a `defaultdict(int)`
unfoldable pub inc : Counts → String → ℕ → Counts
unfolding get
inc counts name n = Dict.set name (get counts name + n) counts

unfoldable pub inc_all : List (String × ℕ) → Counts → Counts
unfolding inc
inc_all [] counts = counts
inc_all ((name, n) ∷ calls) counts = inc_all calls (inc counts name n)

-- What the calls add to one counter.
unfoldable pub added : String → List (String × ℕ) → ℕ
added name [] = 0
added name ((other, n) ∷ calls) = (if other == name then n else 0) + added name calls

get-inc :
    (counts : Counts) (other name : String) (n : ℕ)
    → get (inc counts other n) name ≡ (if other == name then n else 0) + get counts name
unfolding inc
get-inc counts other name n =
    ground
      (arith, Dict.get-set other name (get counts other + n) counts, string_eq.decides other name)

-- After any calls of `inc` a counter is what it was and the sum of what the calls of its name add.
pub get-inc_all :
    (calls : List (String × ℕ)) (counts : Counts) (name : String)
    → get (inc_all calls counts) name ≡ added name calls + get counts name
unfolding inc_all added
get-inc_all [] counts name = omega arith
get-inc_all ((other, n) ∷ calls) counts name =
    omega (arith, get-inc_all calls (inc counts other n) name, get-inc counts other name n)

-- `_REDACT_KEYS`
abbrev pub redact_keys : List String
redact_keys =
    "url" ∷ "key" ∷ "token" ∷ "secret" ∷ "password" ∷ "credential" ∷ "api_key" ∷ "database_url"
    ∷ "connection_string" ∷ []

-- `_redact_processor`. Its loop writes to each key at most once. Values are of any type, and `mark`
-- is the text "<redacted>" as one.
unfoldable pub redact_processor : {V : Type 0} → V → Dict String V → Dict String V
redact_processor mark [] = []
redact_processor mark ((key, value) ∷ event) =
    (key, if is_in key redact_keys then mark else value) ∷ redact_processor mark event

-- What the logger gets under a key: for a sensitive key the mark, where the event has the key, and
-- for any other key what the event has.
pub get-redact :
    {V : Type 0} (mark : V) (event : Dict String V) (key : String)
    → Dict.get key (redact_processor mark event) ≡ (
        if is_in key redact_keys
        then (if Dict.has key event then some mark else none)
        else Dict.get key event)
unfolding redact_processor Dict.get Dict.has
get-redact mark [] key = elim (Bool-cases (is_in key redact_keys)) [
  | inl secret ↦ rw secret refl
  | inr plain ↦ rw plain refl
]
get-redact mark ((j, value) ∷ event) key = elim (Bool-cases (j == key)) [
  | inl same ↦
      (let here : is_in j redact_keys ≡ is_in key redact_keys =
          ap (λ k. is_in k redact_keys) ((string_eq.decides j key).0 same) in
        elim (Bool-cases (is_in key redact_keys)) [
          | inl secret ↦ rw (here, same, secret) refl
          | inr plain ↦ rw (here, same, plain) refl
        ])
  | inr other ↦ rw other (get-redact mark event key)
]
