-- ===== src/Schema/Replay/Dropped.antt =====
-- What DROP TABLE leaves of a table (core/schema/ddl.py).
use ezsql.Base.{ℕ, String, true, false, Option, some, ◌==◌, string_eq, ◌≡◌, ◌∙◌, refl, arith, All}
use ezsql.Base.Dict
use ezsql.Base.Dict.{Dict}
use ezsql.Schema.Model.{SchemaModel}
use ezsql.Schema.Replay.{Sqlglot, is_kind, child_of}
use ezsql.Schema.Replay.Change.{drop_table, parse_drop_table, replay_statement}
use ezsql.Schema.Replay.Statements.{without_table-All}

abbrev pub IsForgotten : String → SchemaModel → Type 0
IsForgotten table s =
    (Dict.has table s.tables ≡ false)
    × All (λ fk. ((fk.source_table == table) ≡ false) × ((fk.target_table == table) ≡ false))
        s.foreign_keys

has_remove_self :
    (table : String) (s : SchemaModel) → Dict.has table (drop_table table s).tables ≡ false
has_remove_self table s =
    ground (arith, Dict.has-remove table table s.tables, string_eq.decides table table)

drop_table-IsForgotten : (table : String) (s : SchemaModel) → IsForgotten table (drop_table table s)
drop_table-IsForgotten table s = (has_remove_self table s, without_table-All table s.foreign_keys)

-- After a DROP TABLE that names a table, the schema does not have the table, no foreign key
-- belongs or leads to it, and any other table is as it was.
pub drop_table_forgets :
    {N : Type 0} (sqlglot : Sqlglot N) (stmt node : N) (s : SchemaModel) (i : ℕ)
    (file : Option String) (other : String)
    → sqlglot.isinstance "Create" stmt ≡ false
    → sqlglot.isinstance "Alter" stmt ≡ false
    → sqlglot.isinstance "Drop" stmt ≡ true
    → is_kind sqlglot "TABLE" stmt ≡ true
    → child_of sqlglot "Table" (sqlglot.this stmt) ≡ some node
    → (sqlglot.name node == other) ≡ false
    → IsForgotten (sqlglot.name node) (replay_statement sqlglot stmt s i file).0
      × (Dict.get other (replay_statement sqlglot stmt s i file).0.tables ≡ Dict.get other s.tables)
unfolding replay_statement parse_drop_table
drop_table_forgets sqlglot stmt node s i file other create alter drop kind names differs =
    let table = sqlglot.name node in
    rw (replay_statement, create, alter, drop, kind, parse_drop_table, names)
      (drop_table-IsForgotten table s, Dict.get-remove table other s.tables ∙ rw differs refl)
