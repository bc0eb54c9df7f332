-- ===== src/Schema/Replay/Statements.antt =====
-- That every statement keeps the schema in order (core/schema/ddl.py).
use ezsql.Base.{
  String, true, false, ◌&&◌, not, Option, none, some, List, [], ◌∷◌, if◌then◌else◌, ◌==◌, string_eq,
  ◌≡◌, refl, sym, subst, ap, ◌∙◌, arith, inl, inr, Bool-cases, if_lem, All, All-append, All-map,
  All-zip,
}
use ezsql.Base.Dict
use ezsql.Base.Dict.{Dict}
use ezsql.Base.Entries.{All-set, All-get, All-remove, All-select}
use ezsql.Schema.Model.{SchemaModel, ForeignKeyDef, TableDef, IndexDef}
use ezsql.Schema.Replay.Create.{Parts, add_table}
use ezsql.Schema.Replay.Change.{without_table, drop_table, drop_index_in, add_index}
use ezsql.Schema.Replay.Keeps.{IsKeyed, IsSound, PartsOf}

-- The keys keep their tables when a table is written.
pub set-IsSound :
    (table : String) (t : TableDef) (s : SchemaModel)
    → IsKeyed (table, t)
    → IsSound s
    → IsSound (record s { tables = Dict.set table t s.tables })
set-IsSound table t s keyed h = (
  All-set IsKeyed table t s.tables keyed h.0,
  All-map {P = λ fk. Dict.has fk.source_table s.tables ≡ true}
      {Q = λ fk. Dict.has fk.source_table (Dict.set table t s.tables) ≡ true} s.foreign_keys
      (λ fk there. has_set_lem table fk.source_table t s.tables there) h.1,
)
  where
    has_set_lem :
        (k j : String) (t : TableDef) (d : Dict String TableDef)
        → Dict.has j d ≡ true
        → Dict.has j (Dict.set k t d) ≡ true
    has_set_lem k j t d there = ground (arith, Dict.has-set k j t d)

pub add_table-IsSound :
    (table : String) (p : Parts) (s : SchemaModel)
    → PartsOf table p
    → IsSound s
    → IsSound (add_table table p s).0
add_table-IsSound table p s parts h =
    let t : TableDef = record {
      name = table;
      columns = p.columns;
      indexes = [];
      constraints = p.constraints;
    } in
    let set = set-IsSound table t s (refl, (parts.0, tt)) h in
    (
      set.0,
      All-append (λ fk. Dict.has fk.source_table (Dict.set table t s.tables) ≡ true) s.foreign_keys
          p.foreign_keys set.1
          (All-map {P = λ fk. fk.source_table ≡ table}
            {Q = λ fk. Dict.has fk.source_table (Dict.set table t s.tables) ≡ true} p.foreign_keys
            (λ fk same.
              subst (λ n. Dict.has n (Dict.set table t s.tables) ≡ true) (sym same)
                (has_set_self table t s.tables))
            parts.1),
    )
  where
    has_set_self :
        (k : String) (t : TableDef) (d : Dict String TableDef) → Dict.has k (Dict.set k t d) ≡ true
    has_set_self k t d = ground (arith, Dict.has-set k k t d, string_eq.decides k k)

-- What DROP TABLE leaves refers to the table in neither way.
pub without_table-All :
    (table : String) (fks : List ForeignKeyDef)
    → All
        (λ fk. ((fk.source_table == table) ≡ false) × ((fk.target_table == table) ≡ false))
        (without_table table fks)
unfolding without_table
without_table-All table [] = tt
without_table-All table (fk ∷ fks) =
    elim (Bool-cases (not (fk.source_table == table) && not (fk.target_table == table))) [
      | inl kept ↦
          rw kept ((ground (arith, kept), ground (arith, kept)), without_table-All table fks)
      | inr gone ↦ rw gone (without_table-All table fks)
    ]

pub drop_table-IsSound :
    (table : String) (s : SchemaModel) → IsSound s → IsSound (drop_table table s)
unfolding without_table
drop_table-IsSound table s h = (
  All-remove IsKeyed table s.tables h.0,
  All-map
      {P = λ fk. (Dict.has fk.source_table s.tables ≡ true) × ((fk.source_table == table) ≡ false)}
      {Q = λ fk. Dict.has fk.source_table (Dict.remove table s.tables) ≡ true}
      (without_table table s.foreign_keys)
      (λ fk there. has_remove_lem table fk.source_table s.tables there.0 there.1)
      (All-zip _ _ (without_table table s.foreign_keys)
        (All-select (λ fk. Dict.has fk.source_table s.tables ≡ true) _ s.foreign_keys h.1)
        (All-map (without_table table s.foreign_keys) (λ fk both. both.0)
          (without_table-All table s.foreign_keys))),
)
  where
    has_remove_lem :
        (k j : String) (d : Dict String TableDef)
        → Dict.has j d ≡ true
        → (j == k) ≡ false
        → Dict.has j (Dict.remove k d) ≡ true
    has_remove_lem k j d there other =
        ground (arith, Dict.has-remove k j d, string_eq.decides j k, string_eq.decides k j)

drop_index-IsKeyed :
    (index : String) (d : Dict String TableDef)
    → All IsKeyed d
    → All IsKeyed (drop_index_in index d)
unfolding drop_index_in
drop_index-IsKeyed index [] h = tt
drop_index-IsKeyed index ((k, t) ∷ d) h =
    if_lem (All IsKeyed) (Dict.has index t.indexes)
      ((h.0.0, (h.0.1.0, All-remove (λ ki. ki.1.name ≡ ki.0) index t.indexes h.0.1.1)), h.1)
      (h.0, drop_index-IsKeyed index d h.1)

has-drop_index :
    (index name : String) (d : Dict String TableDef)
    → Dict.has name (drop_index_in index d) ≡ Dict.has name d
unfolding drop_index_in Dict.has
has-drop_index index name [] = refl
has-drop_index index name ((k, t) ∷ d) = elim (Bool-cases (Dict.has index t.indexes)) [
  | inl found ↦ rw found refl
  | inr other ↦ rw other (ap (λ b. if k == name then true else b) (has-drop_index index name d))
]

pub drop_index-IsSound :
    (index : String) (s : SchemaModel)
    → IsSound s
    → IsSound (record s { tables = drop_index_in index s.tables })
drop_index-IsSound index s h = (
  drop_index-IsKeyed index s.tables h.0,
  All-map {P = λ fk. Dict.has fk.source_table s.tables ≡ true}
      {Q = λ fk. Dict.has fk.source_table (drop_index_in index s.tables) ≡ true} s.foreign_keys
      (λ fk there. has-drop_index index fk.source_table s.tables ∙ there) h.1,
)

pub add_index-IsSound :
    (table : String) (index : IndexDef) (s : SchemaModel) (o : Option TableDef)
    → Dict.get table s.tables ≡ o
    → IsSound s
    → IsSound (add_index table index s o)
add_index-IsSound table index s none e h = h
add_index-IsSound table index s (some t) e h =
    let keyed = All-get IsKeyed table s.tables h.0 e in
    set-IsSound table (record t { indexes = Dict.set index.name index t.indexes }) s
      (
        keyed.0,
        (keyed.1.0, All-set (λ ki. ki.1.name ≡ ki.0) index.name index t.indexes refl keyed.1.1),
      )
      h
