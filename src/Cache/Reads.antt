-- ===== src/Cache/Reads.antt =====
-- What `get` gives back after `put` (cache/store.py).
use ezsql.Base.{
  ℕ, suc, ◌≤◌, String, false, Option, none, some, [], ◌∷◌, ◌++◌, length, ltb, ◌==◌, string_eq, ◌≡◌,
  refl, inl, inr, Bool-cases, arith,
}
use ezsql.Base.Dict
use ezsql.Base.Dict.{Dict}
use ezsql.Cache.{CacheStore, get, put, promote, read_memory, evict_memory}

get-append :
    {V : Type 0} (key : String) (v : V) (d : Dict String V)
    → Dict.get key d ≡ none
    → Dict.get key (d ++ (key, v) ∷ []) ≡ some v
unfolding Dict.get
get-append key v [] absent = ground (arith, string_eq.decides key key)
get-append key v ((j, w) ∷ d) absent = ground (arith, get-append key v d)

get-evict :
    {V : Type 0} (n : ℕ) (key : String) (v : V) (d : Dict String V)
    → 1 ≤ n
    → Dict.get key d ≡ none
    → Dict.get key (evict_memory n (d ++ (key, v) ∷ [])) ≡ some v
unfolding evict_memory Dict.get
get-evict n key v [] small absent =
    let fits : ltb n 1 ≡ false = ground arith in rw (fits, (string_eq.decides key key).1 refl)
get-evict n key v ((j, w) ∷ d) small absent = elim (Bool-cases (j == key)) [
  | inl same ↦ absurd (cc (rw same at absent))
  | inr other ↦
      (let later : Dict.get key d ≡ none = rw other at absent in
        elim (Bool-cases (ltb n (suc (length (d ++ (key, v) ∷ []))))) [
          | inl more ↦ rw (more, get-evict n key v d small later)
          | inr fits ↦ rw (fits, other, get-append key v d later)
        ])
]

get-put_last :
    {V : Type 0} (n : ℕ) (key : String) (v : V) (d : Dict String V)
    → 1 ≤ n
    → Dict.get key (evict_memory n (Dict.remove key d ++ (key, v) ∷ [])) ≡ some v
get-put_last n key v d small =
    get-evict n key v (Dict.remove key d) small
      (rw (Dict.get-remove, (string_eq.decides key key).1 refl))

-- With room for one entry, the value that `put` stored under a key is what `get` gives for it,
-- from memory and with the store unchanged, at every later time and whatever time to live `put`
-- was given, as long as the reader gives none.
pub put_then_get :
    {T : Type 0} (parse : String → Option T) (s : CacheStore) (key domain value_json : String)
    (ttl_seconds : Option ℕ) (created now : ℕ) {v : T}
    → 1 ≤ s.max_entries
    → parse value_json ≡ some v
    → get parse (put s key domain value_json ttl_seconds created) key none now
      ≡ (put s key domain value_json ttl_seconds created, some v)
unfolding get put promote read_memory
put_then_get parse s key domain value_json ttl_seconds created now small parses =
    let found =
      get-put_last s.max_entries key
        (record { domain = domain; value_json = value_json; created = created }) s.memory small in
    rw (found, parses)
