-- ===== src/Cache/Bounds.antt =====
-- How much the two tiers hold (cache/store.py).
use ezsql.Base.{
  ℕ, ◌≤◌, String, Option, none, some, List, [], ◌∷◌, length, string_eq, ◌≡◌, refl, inl, inr,
  Bool-cases, Option-cases, arith,
}
use ezsql.Base.Dict
use ezsql.Base.Dict.{Dict}
use ezsql.Cache.{
  MemoryEntry, Row, CacheStore, init, get, put, promote, read_memory, read_db, read_row,
  evict_memory, put_last, forget, expired, or_else, close, clear, Call, perform, perform_all,
}
use ezsql.Cache.Call.{get_call, put_call, close_call, clear_call}

length-evict-le : {A : Type 0} (n : ℕ) (l : List A) → length (evict_memory n l) ≤ n
unfolding evict_memory
length-evict-le n [] = omega arith
length-evict-le n (x ∷ l) = ground (arith, length-evict-le n l)

abbrev IsBounded : ℕ → CacheStore → Type 0
IsBounded n s = (s.max_entries ≡ n) × (length s.memory ≤ n)

promote-IsBounded :
    {n : ℕ} (s : CacheStore) (key domain value_json : String) (created : ℕ)
    → s.max_entries ≡ n
    → IsBounded n (promote s key domain value_json created)
unfolding promote
promote-IsBounded s key domain value_json created same = (
  same,
  omega (
    arith,
    length-evict-le s.max_entries (
        put_last key (record { domain = domain; value_json = value_json; created = created })
          s.memory),
  ),
)

row-IsBounded :
    {n : ℕ} {T : Type 0} (parse : String → Option T) (s : CacheStore) (key : String)
    (ttl : Option ℕ) (now : ℕ) (table : Dict String Row) (row : Option Row)
    → IsBounded n s
    → IsBounded n (read_row parse s key ttl now table row).0
unfolding read_row
row-IsBounded parse s key ttl now table none h = h
row-IsBounded parse s key ttl now table (some row) h =
    elim (Bool-cases (expired (or_else ttl row.ttl) now row.created)) [
      | inl late ↦ rw late h
      | inr fresh ↦ elim (Option-cases (parse row.value)) [
        | inl bad ↦ rw (fresh, bad) h
        | inr good ↦
            rw (fresh, good.1)
              (promote-IsBounded
                (record s { db = some (Dict.set key (record row { last_access = now }) table) }) key
                "" row.value row.created h.0)
      ]
    ]

db-IsBounded :
    {n : ℕ} {T : Type 0} (parse : String → Option T) (s : CacheStore) (key : String)
    (ttl : Option ℕ) (now : ℕ) (db : Option (Dict String Row))
    → IsBounded n s
    → IsBounded n (read_db parse s key ttl now db).0
unfolding read_db
db-IsBounded parse s key ttl now none h = h
db-IsBounded parse s key ttl now (some table) h =
    row-IsBounded parse s key ttl now table (Dict.get key table) h

forget-IsBounded :
    {n : ℕ} {T : Type 0} (parse : String → Option T) (s : CacheStore) (key : String)
    → IsBounded n s
    → IsBounded n (forget parse s key)
forget-IsBounded parse s key h = (h.0, omega (arith, Dict.length-remove-le key s.memory))

memory-IsBounded :
    {n : ℕ} {T : Type 0} (parse : String → Option T) (s : CacheStore) (key : String)
    (ttl : Option ℕ) (now : ℕ) (e : Option MemoryEntry)
    → IsBounded n s
    → IsBounded n (read_memory parse s key ttl now e).0
unfolding read_memory
memory-IsBounded parse s key ttl now none h = db-IsBounded parse s key ttl now s.db h
memory-IsBounded parse s key ttl now (some e) h =
    let missed =
      db-IsBounded parse (forget parse s key) key ttl now s.db (forget-IsBounded parse s key h) in
    elim (Bool-cases (expired ttl now e.created)) [
      | inl late ↦ rw late missed
      | inr fresh ↦ elim (Option-cases (parse e.value_json)) [
        | inl bad ↦ rw (fresh, bad) missed
        | inr good ↦ rw (fresh, good.1) h
      ]
    ]

perform-IsBounded :
    {n : ℕ} {T : Type 0} (parse : String → Option T) (c : Call) (s : CacheStore)
    → IsBounded n s
    → IsBounded n (perform parse c s)
unfolding get put close clear
perform-IsBounded parse (get_call key ttl now) s h =
    memory-IsBounded parse s key ttl now (Dict.get key s.memory) h
perform-IsBounded parse (put_call key domain value_json ttl now) s h =
    (let p = promote-IsBounded s key domain value_json now h.0 in (p.0, p.1))
perform-IsBounded parse close_call s h = h
perform-IsBounded parse clear_call s h = (h.0, omega arith)

all-IsBounded :
    {n : ℕ} {T : Type 0} (parse : String → Option T) (calls : List Call) (s : CacheStore)
    → IsBounded n s
    → IsBounded n (perform_all parse calls s)
unfolding perform_all
all-IsBounded parse [] s h = h
all-IsBounded parse (c ∷ calls) s h =
    all-IsBounded parse calls (perform parse c s) (perform-IsBounded parse c s h)

-- In the state that any sequence of calls makes of a newly opened store, whatever rows the table
-- had, the memory tier has at most `max_entries` entries.
pub memory_bounded :
    {T : Type 0} (parse : String → Option T) (max_entries max_size_mb : ℕ)
    (opened : Option (Dict String Row)) (calls : List Call)
    → length (perform_all parse calls (init max_entries max_size_mb opened)).memory ≤ max_entries
memory_bounded parse max_entries max_size_mb opened calls =
    (all-IsBounded parse calls (init max_entries max_size_mb opened) (refl, omega arith)).1
