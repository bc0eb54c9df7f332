-- ===== src/Plan/Normalize.antt =====
-- `normalize_explain_json` and its traversal. The counter `[visited, suppressed]` that the source
-- mutates is passed along; what raises ends the traversal.
pub mod Sound
pub mod Conditions
pub mod Outcome
use ezsql.Base.{
  ℕ, suc, ◌+◌, String, Bool, true, false, ◌||◌, Option, none, some, List, [], ◌∷◌, ◌++◌, map, ltb,
  ◌==◌, string_eq, if◌then◌else◌,
}
use ezsql.Base.Dict
use ezsql.Base.Dict.{Dict}
use ezsql.Base.Int.{ℤ}
use ezsql.Plan.Json.{
  Numbers, Json, Items, Fields, null, bool, number, str, arr, obj, nil, cons, end, field, get,
  as_text, as_number,
}
use ezsql.Plan.Model
use ezsql.Plan.Model.{PlanConditionKind, PlanCondition, NodeFields, PlanNode, PlanNodes, ParsedPlan}
use ezsql.Plan.Redact.{Sqlglot, redact_literals}

-- `PlanParseError`, pydantic's error at an operation that is no text, and the errors of `float(v)`
-- and `int(v)`.
pub data PlanError : Type 0 where
  parse_error validation_error number_error : PlanError

pub record Limits : Type 0 where
  pub max_nodes : ℕ
  pub max_depth : ℕ
  pub max_condition_chars : ℕ

-- What a call gives back: a raised error, or its value.
pub data Result {ℓ} (T : Type ℓ) : Type ℓ where
  err : (raised : PlanError) → Result T
  ok : (value : T) → Result T

pub record Counter : Type 0 where
  pub visited : ℕ
  pub suppressed : ℕ

-- What follows a call runs on its value only.
infixl 5 ◌>>=◌
abbrev pub ◌>>=◌ {ℓ κ} : {T : Type ℓ} {U : Type κ} → Result T → (T → Result U) → Result U
err raised >>= next = err raised
ok value >>= next = next value

-- `_CONDITION_KINDS.get(key)`
unfoldable pub condition_kind : String → Option PlanConditionKind
condition_kind key =
    if key == "Filter"
    then some PlanConditionKind.filter
    else if key == "Index Cond"
    then some PlanConditionKind.index_cond
    else if key == "Join Filter"
    then some PlanConditionKind.join_filter
    else if key == "Hash Cond"
    then some PlanConditionKind.hash_cond
    else if key == "Merge Cond"
    then some PlanConditionKind.merge_cond
    else if key == "Recheck Cond"
    then some PlanConditionKind.recheck_cond
    else none

abbrev pub allowed_settings : List String
allowed_settings =
    "enable_seqscan" ∷ "enable_indexscan" ∷ "enable_indexonlyscan" ∷ "enable_bitmapscan"
    ∷ "enable_tidscan" ∷ "enable_nestloop" ∷ "enable_hashjoin" ∷ "enable_mergejoin"
    ∷ "enable_material" ∷ "enable_sort" ∷ "enable_hashagg" ∷ "enable_gathermerge"
    ∷ "enable_partition_pruning" ∷ "enable_parallel_append" ∷ "enable_parallel_hash"
    ∷ "enable_partitionwise_join" ∷ "enable_partitionwise_aggregate" ∷ "random_page_cost"
    ∷ "seq_page_cost" ∷ "cpu_tuple_cost" ∷ "cpu_index_tuple_cost" ∷ "cpu_operator_cost"
    ∷ "effective_cache_size" ∷ "work_mem" ∷ "hash_mem_multiplier" ∷ "maintenance_work_mem"
    ∷ "max_parallel_workers" ∷ "max_parallel_workers_per_gather" ∷ "default_statistics_target"
    ∷ "plan_cache_mode" ∷ "jit" ∷ "from_collapse_limit" ∷ "join_collapse_limit" ∷ []

unfoldable pub is_allowed : String → List String → Bool
is_allowed key [] = false
is_allowed key (name ∷ names) = name == key || is_allowed key names

-- `raw.get("Node Type", "Unknown")`, which the model's field takes only as a text.
unfoldable pub node_type : {N : Type 0} → Fields N → Option String
unfolding get
node_type raw = elim (get "Node Type" raw) [ none ↦ some "Unknown" | some v ↦ as_text (some v) ]

-- A visited node over the bounds is suppressed.
abbrev pub over : Limits → ℕ → ℕ → Bool
over limits visited depth = ltb limits.max_nodes visited || ltb limits.max_depth depth

-- A value that may be absent; `number_error` where its conversion raises.
abbrev pub converted {ℓ} : {A B : Type ℓ} → (A → Option B) → Option A → Result (Option B)
converted f none = ok none
converted f (some a) = elim (f a) [ none ↦ err number_error | some b ↦ ok (some b) ]

abbrev pub required {ℓ} : {A : Type ℓ} → PlanError → Option A → Result A
required e none = err e
required e (some a) = ok a

-- `isinstance(v, dict)`
abbrev pub as_dict : {N : Type 0} → Option (Json N) → Result (Fields N)
as_dict (some (obj raw)) = ok raw
as_dict _ = err parse_error

-- A list with exactly one object in it.
abbrev pub as_single : {N : Type 0} → Option (Json N) → Result (Fields N)
as_single (some (arr (cons v nil))) = as_dict (some v)
as_single _ = err parse_error

module _ (numbers : Numbers) (sqlglot : Sqlglot) (text_of : Json numbers.Num → String) where
  open numbers use {Num, Float, to_float, to_int}

  module _ (limits : Limits) where
    open limits use {max_condition_chars}

    pub normalize_condition : PlanConditionKind → Json Num → PlanCondition
    normalize_condition kind (str s) = record {
      kind = kind;
      expression = redact_literals sqlglot s max_condition_chars;
    }
    normalize_condition kind v = record {
      kind = kind;
      expression = redact_literals sqlglot (text_of v) max_condition_chars;
    }

    -- The inner loop over a list of conditions.
    pub normalize_each : PlanConditionKind → Items Num → List PlanCondition
    normalize_each kind nil = []
    normalize_each kind (cons v rest) = normalize_condition kind v ∷ normalize_each kind rest

    -- One item of `raw`: a list gives a condition for each of its items, a text gives one.
    pub conditions_at : Option PlanConditionKind → Json Num → List PlanCondition
    conditions_at none v = []
    conditions_at (some kind) (arr items) = normalize_each kind items
    conditions_at (some kind) (str s) = normalize_condition kind (str s) ∷ []
    conditions_at (some kind) _ = []

    -- The loop `for key, value in raw.items()`.
    unfoldable pub conditions_of : Fields Num → List PlanCondition
    unfolding normalize_condition normalize_each conditions_at condition_kind
    conditions_of end = []
    conditions_of (field key v rest) = conditions_at (condition_kind key) v ++ conditions_of rest

    -- The fields of the node that the function returns.
    abbrev pub node_fields :
        Fields Num → String → Option Float → Option Float → Option ℤ → Option ℤ → NodeFields Float
    node_fields raw op startup total rows width = record {
      op = op;
      relation = as_text (get "Relation Name" raw);
      index = as_text (get "Index Name" raw);
      startup_cost = startup;
      total_cost = total;
      estimated_rows = rows;
      row_width = width;
      conditions = conditions_of raw;
    }

    -- The node that the function returns, once the children are there.
    unfoldable pub build_node : Fields Num → PlanNodes Float → Result (PlanNode Float)
    unfolding node_type conditions_of
    build_node raw children = do
      startup ← converted to_float (as_number numbers (get "Startup Cost" raw))
      total ← converted to_float (as_number numbers (get "Total Cost" raw))
      rows ← converted to_int (as_number numbers (get "Plan Rows" raw))
      width ← converted to_int (as_number numbers (get "Plan Width" raw))
      op ← required validation_error (node_type raw)
      ok (PlanNode.node (node_fields raw op startup total rows width) children)

    abbrev pub Traversal : Type 0 → Type 0
    Traversal A = Counter → Result (A × Counter)

    -- `_normalize_node`, given the walk over the children.
    unfoldable pub visit :
        Fields Num → ℕ → Traversal (PlanNodes Float) → Traversal (Option (PlanNode Float))
    unfolding build_node
    visit raw depth children c =
        let c' : Counter = record c { visited = c.visited + 1 } in
        if over limits c'.visited depth
        then ok (none, record c' { suppressed = c'.suppressed + 1 })
        else do (below, c'') ← children c'; n ← build_node raw below; ok (some n, c'')

    -- `if normalized is not None: children.append(normalized)`
    abbrev pub keep : Option (PlanNode Float) → PlanNodes Float → PlanNodes Float
    keep none rest = rest
    keep (some n) rest = PlanNodes.cons n rest

    unfoldable mutual
      -- The loop over `raw.get("Plans", [])`, at the depth of the children.
      pub normalize_plans : Fields Num → ℕ → Traversal (PlanNodes Float)
      normalize_plans end depth c = ok (PlanNodes.nil, c)
      normalize_plans (field key v rest) depth c = elim (key == "Plans") [
        | true ↦ normalize_list v depth c
        | false ↦ normalize_plans rest depth c
      ]

      pub normalize_list : Json Num → ℕ → Traversal (PlanNodes Float)
      normalize_list (arr items) depth c = normalize_items items depth c
      normalize_list _ depth c = ok (PlanNodes.nil, c)

      pub normalize_items : Items Num → ℕ → Traversal (PlanNodes Float)
      normalize_items nil depth c = ok (PlanNodes.nil, c)
      normalize_items (cons v items) depth c = do
        (child, c') ← normalize_child v depth c
        (rest, c'') ← normalize_items items depth c'
        ok (keep child rest, c'')

      -- `if isinstance(child, dict)`
      pub normalize_child : Json Num → ℕ → Traversal (Option (PlanNode Float))
      normalize_child (obj raw) depth c = visit raw depth (normalize_plans raw (depth + 1)) c
      normalize_child _ depth c = ok (none, c)

    unfoldable pub normalize_node : Fields Num → ℕ → Traversal (Option (PlanNode Float))
    unfolding visit normalize_plans
    normalize_node raw depth = visit raw depth (normalize_plans raw (depth + 1))

  -- The loop over the settings.
  unfoldable pub settings_of : Fields Num → Dict String String → Dict String String
  unfolding is_allowed
  settings_of end settings = settings
  settings_of (field key v rest) settings =
      settings_of rest
        (if is_allowed key allowed_settings then Dict.set key (text_of v) settings else settings)

  abbrev pub settings_in : Option (Json Num) → Dict String String
  settings_in (some (obj raw)) = settings_of raw []
  settings_in _ = []

  -- `loaded` is what `json.loads(raw_json)` returns, `none` if it raises; `now` is `time.time()`.
  unfoldable pub normalize_explain_json :
      Limits → Option (Json Num) → Float → Result (ParsedPlan Float)
  unfolding normalize_node settings_of
  normalize_explain_json limits loaded now = do
    top ← as_single loaded
    plan_raw ← as_dict (get "Plan" top)
    (found, counter) ← normalize_node limits plan_raw 1 (record { visited = 0; suppressed = 0 })
    root ← required parse_error found
    planning_time ← converted to_float (as_number numbers (get "Planning Time" top))
    ok (record {
      root = root;
      planning_time_ms = planning_time;
      settings = settings_in (get "Settings" top);
      captured_at = now;
      truncated = ltb 0 counter.suppressed;
      nodes_suppressed = counter.suppressed;
    })
