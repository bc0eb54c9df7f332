-- ===== src/Cache/Table.antt =====
-- The size of the SQLite tier (cache/store.py).
use ezsql.Base.{
  ℕ, suc, zero, ◌+◌, ◌-◌, ◌*◌, ◌≤◌, String, true, false, Option, none, some, [], ◌∷◌, length, ltb,
  string_eq, ◌≡◌, refl, inl, inr, Bool-cases, Option-cases, arith, text_length,
}
use ezsql.Base.Dict
use ezsql.Base.Dict.{Dict}
use ezsql.Cache.{Row, CacheStore, put, total_length, oldest, evict_rows, evict_sqlite}

remove-le :
    (k : String) (table : Dict String Row) → total_length (Dict.remove k table) ≤ total_length table
unfolding total_length Dict.remove
remove-le k [] = omega arith
remove-le k ((j, r) ∷ table) = ground (arith, remove-le k table)

-- What dropping a row takes off, at least.
abbrev Drops : String × Row → Dict String Row → Type 0
Drops x table =
    (Dict.has x.0 table ≡ true)
    × (total_length (Dict.remove x.0 table) + text_length x.1.value ≤ total_length table)

Drops-head : (k : String) (r : Row) (table : Dict String Row) → Drops (k, r) ((k, r) ∷ table)
unfolding total_length Dict.remove Dict.has
Drops-head k r table = rw ((string_eq.decides k k).1 refl) (refl, omega (arith, remove-le k table))

Drops-cons :
    (x : String × Row) (k : String) (r : Row) (table : Dict String Row)
    → Drops x table
    → Drops x ((k, r) ∷ table)
unfolding total_length Dict.remove Dict.has
Drops-cons (j, q) k r table h = (ground (arith, h.0), ground (arith, h.1))

Drops-swap :
    (x : String × Row) (k : String) (r : Row) (j : String) (q : Row) (table : Dict String Row)
    → Drops x ((k, r) ∷ table)
    → Drops x ((k, r) ∷ (j, q) ∷ table)
unfolding total_length Dict.remove Dict.has
Drops-swap (i, p) k r j q table h = (ground (arith, h.0), ground (arith, h.1))

oldest-Drops :
    (k : String) (r : Row) (table : Dict String Row) → Drops (oldest (k, r) table) ((k, r) ∷ table)
unfolding oldest
oldest-Drops k r [] = Drops-head k r []
oldest-Drops k r ((j, q) ∷ table) = elim (Bool-cases (ltb q.last_access r.last_access)) [
  | inl older ↦
      rw older (Drops-cons (oldest (j, q) table) k r ((j, q) ∷ table) (oldest-Drops j q table))
  | inr not_older ↦
      rw not_older (Drops-swap (oldest (k, r) table) k r j q table (oldest-Drops k r table))
]

evict_rows-le :
    (fuel max_bytes total : ℕ) (table : Dict String Row)
    → length table ≤ fuel
    → total_length table ≤ total
    → total_length (evict_rows fuel max_bytes total table) ≤ max_bytes
unfolding evict_rows total_length
evict_rows-le fuel max_bytes total [] enough sum = omega arith
evict_rows-le zero max_bytes total ((k, r) ∷ table) enough sum = ground (arith, enough)
evict_rows-le (suc fuel) max_bytes total ((k, r) ∷ table) enough sum =
    let victim = oldest (k, r) table in
    let drops = oldest-Drops k r table in
    let left = Dict.remove victim.0 ((k, r) ∷ table) in
    let shorter = Dict.length-remove-lt victim.0 ((k, r) ∷ table) drops.0 in
    let rest =
      evict_rows-le fuel max_bytes (total - text_length victim.1.value) left (omega arith)
        (omega (arith, drops.1)) in
    elim (Bool-cases (ltb max_bytes total)) [
      | inl over ↦ rw over rest
      | inr fits ↦ rw fits (ground arith)
    ]

evict_sqlite-le :
    (s : CacheStore) (table : Dict String Row)
    → total_length (evict_sqlite s table) ≤ s.max_size_mb * 1024 * 1024
unfolding evict_sqlite
evict_sqlite-le s table =
    evict_rows-le (length table) (s.max_size_mb * 1024 * 1024) (total_length table) table
      (omega arith) (omega arith)

-- The size of the table, where there is one.
abbrev pub table_size : Option (Dict String Row) → ℕ
table_size none = 0
table_size (some table) = total_length table

-- After `put` the texts of the table have at most `max_size_mb` times 2 ^ 20 characters,
-- however large the table was and whatever the value.
pub put_bounds_table :
    (s : CacheStore) (key domain value_json : String) (ttl_seconds : Option ℕ) (now : ℕ)
    → table_size (put s key domain value_json ttl_seconds now).db ≤ s.max_size_mb * 1024 * 1024
unfolding put
put_bounds_table s key domain value_json ttl_seconds now = elim (Option-cases s.db) [
  | inl closed ↦ rw closed (omega arith)
  | inr opened ↦ rw opened.1 (evict_sqlite-le s _)
]

-- A table that is not over the limit loses no row.
evict_sqlite_none :
    (s : CacheStore) (table : Dict String Row)
    → total_length table ≤ s.max_size_mb * 1024 * 1024
    → evict_sqlite s table ≡ table
unfolding evict_sqlite evict_rows
evict_sqlite_none s [] small = refl
evict_sqlite_none s (x ∷ table) small =
    let fits : ltb (s.max_size_mb * 1024 * 1024) (total_length (x ∷ table)) ≡ false =
      ground arith in
    rw fits
