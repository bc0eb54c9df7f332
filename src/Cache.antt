-- ===== src/Cache.antt =====
-- src/ezsql/cache/store.py: the cache's two tiers. The memory tier is an ordered dictionary, least
-- recent first; the SQLite tier is the table `entries`, or nothing where the database could not be
-- opened. Times are numbers of ticks of one clock. A statement on the table is taken to succeed.
pub mod Reads
pub mod Bounds
pub mod Table
use ezsql.Base.{
  ℕ, suc, ◌+◌, ◌-◌, ◌*◌, String, Bool, true, false, Option, none, some, List, [], ◌∷◌, ◌++◌, length,
  ltb, leb, ◌==◌, string_eq, if◌then◌else◌, text_length,
}
use ezsql.Base.Dict
use ezsql.Base.Dict.{Dict}

pub record MemoryEntry : Type 0 where
  pub domain : String
  pub value_json : String
  pub created : ℕ

-- A row of the table, without its key.
pub record Row : Type 0 where
  pub domain : String
  pub value : String
  pub created : ℕ
  pub ttl : Option ℕ
  pub last_access : ℕ

pub record CacheStore : Type 0 where
  pub max_entries : ℕ
  pub max_size_mb : ℕ
  pub memory : Dict String MemoryEntry
  pub db : Option (Dict String Row)

-- The table is what the database holds when it is opened.
abbrev pub init : ℕ → ℕ → Option (Dict String Row) → CacheStore
init max_entries max_size_mb opened = record {
  max_entries = max_entries;
  max_size_mb = max_size_mb;
  memory = [];
  db = opened;
}

-- `memory[key] = value; memory.move_to_end(key)`
abbrev pub put_last : String → MemoryEntry → Dict String MemoryEntry → Dict String MemoryEntry
put_last key e memory = Dict.remove key memory ++ (key, e) ∷ []

-- `_evict_memory`: `popitem(last=False)` while there are too many.
unfoldable pub evict_memory {ℓ} : {A : Type ℓ} → ℕ → List A → List A
evict_memory max_entries [] = []
evict_memory max_entries (x ∷ l) =
    let rest = evict_memory max_entries l in
    if ltb max_entries (suc (length l)) then rest else x ∷ l

-- `_promote`
unfoldable pub promote : CacheStore → String → String → String → ℕ → CacheStore
unfolding evict_memory
promote s key domain value_json created = record s {
  memory = evict_memory s.max_entries (
      put_last key (record { domain = domain; value_json = value_json; created = created })
        s.memory);
}

-- `ttl is not None and (now - created) > ttl`
abbrev pub expired : Option ℕ → ℕ → ℕ → Bool
expired none now created = false
expired (some ttl) now created = ltb ttl (now - created)

abbrev pub or_else {ℓ} : {A : Type ℓ} → Option A → Option A → Option A
or_else none b = b
or_else (some a) b = some a

-- `parse` is the model's `model_validate_json`, `none` where it raises.
module _ {T : Type 0} (parse : String → Option T) where
  -- The SQLite tier of `get`, for the row under the key.
  unfoldable pub read_row :
      CacheStore → String → Option ℕ → ℕ → Dict String Row → Option Row → CacheStore × Option T
  unfolding promote
  read_row s key ttl_seconds now table none = (s, none)
  read_row s key ttl_seconds now table (some row) =
      if expired (or_else ttl_seconds row.ttl) now row.created
      then (record s { db = some (Dict.remove key table) }, none)
      else elim (parse row.value) [
        | none ↦ (record s { db = some (Dict.remove key table) }, none)
        | some v ↦ (
          promote (record s { db = some (Dict.set key (record row { last_access = now }) table) })
              key "" row.value row.created,
          some v,
        )
      ]

  unfoldable pub read_db :
      CacheStore → String → Option ℕ → ℕ → Option (Dict String Row) → CacheStore × Option T
  unfolding read_row
  read_db s key ttl_seconds now none = (s, none)
  read_db s key ttl_seconds now (some table) =
      read_row s key ttl_seconds now table (Dict.get key table)

  -- `self._memory.pop(key, None)`
  abbrev pub forget : CacheStore → String → CacheStore
  forget s key = record s { memory = Dict.remove key s.memory }

  -- The memory tier of `get`, for the entry under the key; what it does not serve falls through.
  unfoldable pub read_memory :
      CacheStore → String → Option ℕ → ℕ → Option MemoryEntry → CacheStore × Option T
  unfolding read_db
  read_memory s key ttl_seconds now none = read_db s key ttl_seconds now s.db
  read_memory s key ttl_seconds now (some e) =
      if expired ttl_seconds now e.created
      then read_db (forget s key) key ttl_seconds now s.db
      else elim (parse e.value_json) [
        | none ↦ read_db (forget s key) key ttl_seconds now s.db
        | some v ↦ (s, some v)
      ]

  unfoldable pub get : CacheStore → String → Option ℕ → ℕ → CacheStore × Option T
  unfolding read_memory
  get s key ttl_seconds now = read_memory s key ttl_seconds now (Dict.get key s.memory)

-- `SUM(LENGTH(value))`
unfoldable pub total_length : Dict String Row → ℕ
total_length [] = 0
total_length ((k, r) ∷ table) = text_length r.value + total_length table

-- The row that `ORDER BY last_access ASC LIMIT 1` gives: the first of the least.
unfoldable pub oldest : String × Row → Dict String Row → String × Row
oldest best [] = best
oldest (k, r) ((j, q) ∷ table) =
    oldest (if ltb q.last_access r.last_access then (j, q) else (k, r)) table

-- The loop of `_evict_sqlite`. It deletes a row each time, so its fuel is the number of rows.
unfoldable pub evict_rows : ℕ → ℕ → ℕ → Dict String Row → Dict String Row
unfolding oldest
evict_rows fuel max_bytes total [] = []
evict_rows ℕ.zero max_bytes total (x ∷ table) = x ∷ table
evict_rows (suc fuel) max_bytes total (x ∷ table) =
    let victim = oldest x table in
    let rest =
      evict_rows fuel max_bytes (total - text_length victim.1.value)
        (Dict.remove victim.0 (x ∷ table)) in
    if ltb max_bytes total then rest else x ∷ table

unfoldable pub evict_sqlite : CacheStore → Dict String Row → Dict String Row
unfolding evict_rows total_length
evict_sqlite s table =
    evict_rows (length table) (s.max_size_mb * 1024 * 1024) (total_length table) table

-- `INSERT OR REPLACE`, which drops the old row and appends the new one.
abbrev pub insert_or_replace : String → Row → Dict String Row → Dict String Row
insert_or_replace key row table = Dict.remove key table ++ (key, row) ∷ []

abbrev pub store_row :
    CacheStore → String → Row → Option (Dict String Row) → Option (Dict String Row)
store_row s key row none = none
store_row s key row (some table) = some (evict_sqlite s (insert_or_replace key row table))

-- `put`, of a value's JSON.
unfoldable pub put : CacheStore → String → String → String → Option ℕ → ℕ → CacheStore
unfolding promote evict_sqlite
put s key domain value_json ttl_seconds now = record (promote s key domain value_json now) {
  db =
      store_row s key
        (record {
          domain = domain;
          value = value_json;
          created = now;
          ttl = ttl_seconds;
          last_access = now;
        })
        s.db;
}

unfoldable pub close : CacheStore → CacheStore
close s = record s { db = none }

abbrev pub emptied : Option (Dict String Row) → Option (Dict String Row)
emptied none = none
emptied (some table) = some []

unfoldable pub clear : CacheStore → CacheStore
clear s = record s { memory = []; db = emptied s.db }

-- The calls of the public operations, with the time at which each reads the clock.
pub data Call : Type 0 where
  get_call : (key : String) (ttl_seconds : Option ℕ) (now : ℕ) → Call
  put_call : (key domain value_json : String) (ttl_seconds : Option ℕ) (now : ℕ) → Call
  close_call clear_call : Call

module _ {T : Type 0} (parse : String → Option T) where
  abbrev pub perform : Call → CacheStore → CacheStore
  perform (get_call key ttl_seconds now) s = (get parse s key ttl_seconds now).0
  perform (put_call key domain value_json ttl_seconds now) s =
      put s key domain value_json ttl_seconds now
  perform close_call s = close s
  perform clear_call s = clear s

  unfoldable pub perform_all : List Call → CacheStore → CacheStore
  perform_all [] s = s
  perform_all (c ∷ calls) s = perform_all calls (perform c s)
