-- ===== src/Tests/SchemaTests.antt =====
-- Two migrations: one makes a table that refers to itself, and one drops it. Their versions are
-- compared as texts, so the tenth comes before the ninth.
use ezsql.Base.{
  ℕ, String, Bool, true, false, ◌&&◌, leb, Option, none, some, List, [], ◌∷◌, map, ◌==◌, string_eq,
  ◌≡◌, ◌⊎◌, refl, length, if◌then◌else◌,
}
use ezsql.Base.Dict
use ezsql.Base.Dict.{Dict}
use ezsql.Schema.Model.{SchemaModel}
use ezsql.Schema.Ordering.{
  ordered, ambiguous, File, order_migrations, Convention, candidates, duplicate_migration_version,
}
use ezsql.Schema.Ordering.Sound.{IsOrder, order_migrations-IsOrder}
use ezsql.Schema.Replay.{Sqlglot}
use ezsql.Schema.Replay.Keeps.{IsSound}
use ezsql.Schema.Replay.Change.{replay_statement}
use ezsql.Schema.Replay.Dropped.{IsForgotten, drop_table_forgets}
use ezsql.Schema.Migrations.{Migrated, model, refused, empty_schema, parse_migrations}
use ezsql.Schema.Migrations.Sound.{parse_migrations-IsSound}
use ezsql.Schema.Migrations.Warnings.{IsCut, limit_only_cuts}

pub data Node : Type 0 where
  create drop definition table column constraint reference target odd : Node

class_of : Node → String
class_of create = "Create"
class_of drop = "Drop"
class_of definition = "Schema"
class_of table = "Table"
class_of column = "ColumnDef"
class_of constraint = "ColumnConstraint"
class_of reference = "Reference"
class_of target = "Schema"
class_of odd = "Check"

name_in : Node → String
name_in table = "t"
name_in column = "a"
name_in _ = ""

this_in : Node → Option Node
this_in create = some definition
this_in definition = some table
this_in drop = some table
this_in reference = some target
this_in target = some table
this_in _ = none

abbrev pub glot : Sqlglot Node
unfolding class_of name_in this_in
glot = record {
  isinstance = λ class n. class_of n == class;
  type_name = class_of;
  name = name_in;
  sql = name_in;
  this = this_in;
  expressions = λ n. elim n [ definition ↦ column ∷ odd ∷ [] | _ ↦ [] ];
  arg = λ key n. elim n [ constraint ↦ some reference | _ ↦ none ];
  args = λ key n. elim n [ column ↦ constraint ∷ [] | _ ↦ [] ];
  flag = λ key n. false;
  kind_upper = λ n. some "TABLE";
  columns_below = λ n. [];
}

abbrev pub read : String → Option (List Node)
read text =
    if text == "broken"
    then none
    else if text == "drop"
    then some (drop ∷ [])
    else some (create ∷ [])

abbrev pub ascii : ℕ → Bool
ascii c = leb 48 c && leb c 57

abbrev two : List File
two = ("9_a.sql", "create") ∷ ("10_b.sql", "drop") ∷ []

-- The second file is not read.
abbrev made : List File
made = ("1_a.sql", "create") ∷ ("2_b.sql", "broken") ∷ []

run : Unit {0}
unfolding parse_migrations order_migrations Dict.get Dict.set ezsql.Base.text_le class_of name_in
    this_in
run = tt

abbrev schema_of : Migrated → SchemaModel
schema_of (model s) = s
schema_of (refused a) = empty_schema []

made_schema : ℕ → SchemaModel
unfolding run
made_schema limit = schema_of (parse_migrations glot read ascii limit made)

abbrev by_text : List File
by_text = ("10_b.sql", "drop") ∷ ("9_a.sql", "create") ∷ []

numeric_by_text : order_migrations ascii two ≡ ordered by_text
unfolding run
numeric_by_text = refl

-- So the table that the ninth makes and the tenth drops is in the schema.
stays : Dict.has "t" (schema_of (parse_migrations glot read ascii 5 two)).tables ≡ true
unfolding run Dict.has Dict.remove
stays = refl

two_versions :
    order_migrations ascii (("1_a.sql", "") ∷ ("01_b.sql", "") ∷ [])
    ≡ ambiguous (duplicate_migration_version "1" "1_a.sql" "01_b.sql")
unfolding run
two_versions = refl

one_key : length (made_schema 5).foreign_keys ≡ 1
unfolding run made_schema
one_key = refl

is_model : (limit : ℕ) → parse_migrations glot read ascii limit made ≡ model (made_schema limit)
unfolding run made_schema
is_model limit = refl

whole : (made_schema 5).warnings_truncated ≡ false
unfolding run made_schema
whole = refl

parse_migrations-IsSound_example : IsSound (made_schema 5)
parse_migrations-IsSound_example =
    parse_migrations-IsSound glot read ascii 5 made (made_schema 5) (is_model 5)

limit_only_cuts_example : IsCut 1 (made_schema 1) (made_schema 5)
limit_only_cuts_example =
    limit_only_cuts glot read ascii 1 5 made (made_schema 1) (made_schema 5) (is_model 1)
      (is_model 5) whole

order_migrations-IsOrder_example :
    ((candidates ascii two ≡ []) × (by_text ≡ []))
    ⊎ ((convention : Convention) × IsOrder ascii convention (candidates ascii two) by_text)
order_migrations-IsOrder_example = order_migrations-IsOrder ascii two numeric_by_text

drop_table_forgets_example :
    IsForgotten "t" (replay_statement glot drop (made_schema 5) 0 none).0
    × (Dict.get "u" (replay_statement glot drop (made_schema 5) 0 none).0.tables
        ≡ Dict.get "u" (made_schema 5).tables)
unfolding glot
drop_table_forgets_example =
    drop_table_forgets glot drop table (made_schema 5) 0 none "u" refl refl refl refl refl refl
