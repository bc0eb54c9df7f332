-- ===== src/Tasks.antt =====
-- src/ezsql/tasks/registry.py: tasks that come into being when they are first named, and expire.
-- Every operation reads the clock once; the time is its argument. Times are whole numbers here.
pub mod Refs
use ezsql.Base.{
  ℕ, ◌+◌, ◌-◌, String, Bool, true, false, Option, none, some, List, [], ◌∷◌, ◌++◌, ltb, ◌==◌,
  string_eq, if◌then◌else◌,
}
use ezsql.Base.Dict
use ezsql.Base.Dict.{Dict}

pub data ArtifactType : Type 0 where
  context_map schema_model analysis security optimize design refactor debug : ArtifactType

pub record TaskRef : Type 0 where
  pub cache_key : String
  pub artifact_type : ArtifactType

pub record TaskState : Type 0 where
  pub task_id : String
  pub created_at : ℕ
  pub ttl : ℕ
  pub refs : List TaskRef

pub record TaskRegistry : Type 0 where
  pub tasks : Dict String TaskState
  pub default_ttl : ℕ

abbrev pub init : ℕ → TaskRegistry
init default_ttl = record { tasks = []; default_ttl = default_ttl }

-- `now - state.created_at > state.ttl`
abbrev pub is_expired : ℕ → TaskState → Bool
is_expired now state = ltb state.ttl (now - state.created_at)

-- `_expire_locked`, on the dictionary
unfoldable pub expire : ℕ → Dict String TaskState → Dict String TaskState
expire now [] = []
expire now ((id, state) ∷ tasks) =
    if is_expired now state then expire now tasks else (id, state) ∷ expire now tasks

abbrev pub expire_locked : TaskRegistry → ℕ → TaskRegistry
expire_locked r now = record r { tasks = expire now r.tasks }

abbrev pub created : String → ℕ → ℕ → TaskState
created task_id now ttl = record { task_id = task_id; created_at = now; ttl = ttl; refs = [] }

abbrev pub or_default : Option ℕ → ℕ → ℕ
or_default none d = d
or_default (some ttl) d = ttl

-- The task of the name, made and put into the registry where there is none.
unfoldable pub vivify : TaskRegistry → String → ℕ → ℕ → Option TaskState → TaskRegistry × TaskState
vivify r task_id now ttl (some state) = (r, state)
vivify r task_id now ttl none = (
  record r { tasks = Dict.set task_id (created task_id now ttl) r.tasks },
  created task_id now ttl,
)

unfoldable pub get_or_create : TaskRegistry → String → Option ℕ → ℕ → TaskRegistry × TaskState
unfolding vivify expire
get_or_create r task_id ttl now =
    vivify (expire_locked r now) task_id now (or_default ttl r.default_ttl)
      (Dict.get task_id (expire now r.tasks))

-- `ref.cache_key == cache_key` for some reference
unfoldable pub has_ref : String → List TaskRef → Bool
has_ref cache_key [] = false
has_ref cache_key (ref ∷ refs) = if ref.cache_key == cache_key then true else has_ref cache_key refs

-- The loop over the references and the append after it.
unfoldable pub with_ref : String → ArtifactType → List TaskRef → List TaskRef
unfolding has_ref
with_ref cache_key artifact_type refs =
    if has_ref cache_key refs
    then refs
    else refs ++ record { cache_key = cache_key; artifact_type = artifact_type } ∷ []

-- The state is shared with the registry, so the append is a write to the dictionary.
unfoldable pub add_ref : TaskRegistry → String → String → ArtifactType → ℕ → TaskRegistry
unfolding get_or_create with_ref
add_ref r task_id cache_key artifact_type now =
    let (r', state) = get_or_create r task_id none now in
    record r' {
      tasks =
          Dict.set task_id (record state { refs = with_ref cache_key artifact_type state.refs })
            r'.tasks;
    }

-- What a task's references resolve to: a context map of type `C` and a schema of type `M`.
pub record TaskContext (C M : Type 0) : Type 0 where
  pub task_id : String
  pub context_map : Option C
  pub schema_model : Option M

abbrev pub newer : {A : Type 0} → Option A → Option A → Option A
newer old none = old
newer old (some a) = some a

-- The cache's `get` for either model; it may change the cache, of type `K`.
module _ {C M K : Type 0} (get_context : K → String → K × Option C)
    (get_schema : K → String → K × Option M) where
  -- One turn of the loop.
  unfoldable pub resolve_ref : TaskRef → K × TaskContext C M → K × TaskContext C M
  resolve_ref ref (cache, ctx) = elim (ref.artifact_type) [
    | context_map ↦
        (let (cache', found) = get_context cache ref.cache_key in
          (cache', record ctx { context_map = newer ctx.context_map found }))
    | schema_model ↦
        (let (cache', found) = get_schema cache ref.cache_key in
          (cache', record ctx { schema_model = newer ctx.schema_model found }))
    | _ ↦ (cache, ctx)
  ]

  unfoldable pub resolve_refs : List TaskRef → K × TaskContext C M → K × TaskContext C M
  unfolding resolve_ref
  resolve_refs [] acc = acc
  resolve_refs (ref ∷ refs) acc = resolve_refs refs (resolve_ref ref acc)

  abbrev pub refs_of : Option TaskState → List TaskRef
  refs_of none = []
  refs_of (some state) = state.refs

  unfoldable pub resolve_context :
      TaskRegistry → String → ℕ → K → TaskRegistry × K × TaskContext C M
  unfolding resolve_refs expire
  resolve_context r task_id now cache =
      let refs = refs_of (Dict.get task_id (expire now r.tasks)) in
      let (cache', ctx) =
        resolve_refs refs
          (cache, record { task_id = task_id; context_map = none; schema_model = none }) in
      (expire_locked r now, cache', ctx)

unfoldable pub clear : TaskRegistry → TaskRegistry
clear r = record r { tasks = [] }
