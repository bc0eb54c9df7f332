-- ===== src/Tests/TasksTests.antt =====
-- A task that gets a reference and is asked for again, before and after it expires.
use ezsql.Base.{true, none, some, [], ◌∷◌, ◌≡◌, refl, string_eq}
use ezsql.Base.Dict
use ezsql.Base.Dict.{Dict}
use ezsql.Tasks.{
  TaskState, TaskRegistry, init, expire, get_or_create, add_ref, has_ref, with_ref, analysis,
}
use ezsql.Tasks.Refs.{ref_survives, RefsAreOnce, add_ref-RefsAreOnce}

run : Unit {0}
unfolding add_ref get_or_create expire has_ref with_ref Dict.get Dict.set
run = tt

abbrev one_ref : TaskRegistry
one_ref = add_ref (init 60) "t" "k" analysis 100

abbrev state : TaskState
state = record {
  task_id = "t";
  created_at = 100;
  ttl = 60;
  refs = record { cache_key = "k"; artifact_type = analysis } ∷ [];
}

stored : Dict.get "t" one_ref.tasks ≡ some state
unfolding run
stored = refl

expires : (get_or_create one_ref "t" none 161).1.refs ≡ []
unfolding run
expires = refl

ref_survives_example :
    ((get_or_create one_ref "t" (some 5) 160).1 ≡ state) × (has_ref "k" state.refs ≡ true)
ref_survives_example = ref_survives (init 60) "t" "k" analysis 100 160 (some 5) stored refl

add_ref-RefsAreOnce_example : RefsAreOnce (add_ref one_ref "t" "k" analysis 110)
add_ref-RefsAreOnce_example =
    add_ref-RefsAreOnce one_ref "t" "k" analysis 110
      (add_ref-RefsAreOnce (init 60) "t" "k" analysis 100 tt)
