-- ===== src/Plan/Normalize/Conditions.antt =====
-- Every condition of a returned plan went through `redact_literals`.
use ezsql.Base.{
  ℕ, ◌+◌, ◌≤◌, String, ◌≡◌, refl, true, false, Option, none, some, List, [], arith, ltb, Bool-cases,
  inl, inr, All, All-append, ◌==◌, string_eq, max, text_length, length-text_take-le, text_take,
  Option-cases, if◌then◌else◌,
}
use ezsql.Plan.Json.{
  Numbers, Json, Items, Fields, str, arr, obj, nil, cons, end, field, get, as_number,
}
use ezsql.Plan.Model.{
  PlanCondition, PlanConditionKind, PlanNode, PlanNodes, ParsedPlan, all_conditions,
  all_conditions_in,
}
use ezsql.Plan.Redact.{Sqlglot, redact_literals}
use ezsql.Plan.Normalize.{
  ok, parse_error, validation_error, Limits, Counter, converted, required, normalize_node,
  as_single, as_dict, normalize_explain_json, conditions_of, conditions_at, condition_kind,
  normalize_each, normalize_condition, node_fields, build_node, visit, keep, node_type, Traversal,
  over, normalize_plans, normalize_list, normalize_items, normalize_child,
}
use ezsql.Plan.Normalize.Sound.{
  Ensures, Ensures-bind, Ensures-self, Ensures-elim, Ensures-required, Ensures-made,
}

-- The text of a rendered expression is cut; the placeholder of an expression that cannot be
-- parsed is not.
redact-length :
    (sqlglot : Sqlglot) (s : String) (n : ℕ) → text_length (redact_literals sqlglot s n) ≤ max n 30
unfolding redact_literals
redact-length sqlglot s n = elim (Option-cases (sqlglot.parse_one s)) [
  | inl e ↦ rw (e, redact_literals) (omega arith)
  | inr (ast, e) ↦ rw (e, redact_literals) (cut (sqlglot.to_sql _))
]
  where
    cut : (t : String) → text_length (if ltb n (text_length t) then text_take n t else t) ≤ max n 30
    cut t = ground (arith, length-text_take-le n t)

module _ (numbers : Numbers) (sqlglot : Sqlglot) (text_of : Json numbers.Num → String) where
  open numbers use {Num, Float, to_float, to_int}

  module _ (l : Limits) where
    -- The expression came out of `redact_literals`, and its length is bounded.
    abbrev pub IsRedacted : PlanCondition → Type 0
    IsRedacted c =
        ((text : String) × (c.expression ≡ redact_literals sqlglot text l.max_condition_chars))
        × (text_length c.expression ≤ max l.max_condition_chars 30)

    abbrev AllRedacted : List PlanCondition → Type 0
    AllRedacted = All IsRedacted

    normalize_condition-IsRedacted :
        (kind : PlanConditionKind) (v : Json Num)
        → IsRedacted (normalize_condition numbers sqlglot text_of l kind v)
    unfolding normalize_condition
    normalize_condition-IsRedacted kind (str s) =
        ((s, refl), redact-length sqlglot s l.max_condition_chars)
    normalize_condition-IsRedacted kind v =
        ((text_of v, refl), redact-length sqlglot (text_of v) l.max_condition_chars)

    normalize_each-IsRedacted :
        (kind : PlanConditionKind) (items : Items Num)
        → AllRedacted (normalize_each numbers sqlglot text_of l kind items)
    unfolding normalize_each
    normalize_each-IsRedacted kind nil = tt
    normalize_each-IsRedacted kind (cons v items) =
        (normalize_condition-IsRedacted kind v, normalize_each-IsRedacted kind items)

    conditions_at-IsRedacted :
        (kind : Option PlanConditionKind) (v : Json Num)
        → AllRedacted (conditions_at numbers sqlglot text_of l kind v)
    unfolding conditions_at
    conditions_at-IsRedacted none v = tt
    conditions_at-IsRedacted (some kind) (arr items) = normalize_each-IsRedacted kind items
    conditions_at-IsRedacted (some kind) (str s) = (normalize_condition-IsRedacted kind (str s), tt)
    conditions_at-IsRedacted (some kind) _ = tt

    conditions_of-IsRedacted :
        (raw : Fields Num) → AllRedacted (conditions_of numbers sqlglot text_of l raw)
    unfolding conditions_of
    conditions_of-IsRedacted end = tt
    conditions_of-IsRedacted (field key v rest) =
        All-append IsRedacted _ _ (conditions_at-IsRedacted (condition_kind key) v)
          (conditions_of-IsRedacted rest)

    abbrev conditions_in : Option (PlanNode Float) → List PlanCondition
    conditions_in none = []
    conditions_in (some n) = all_conditions n

    abbrev Found : Option (PlanNode Float) × Counter → Type 0
    Found r = AllRedacted (conditions_in r.0)

    abbrev Kept : PlanNodes Float × Counter → Type 0
    Kept r = AllRedacted (all_conditions_in r.0)

    build_node-IsRedacted :
        (raw : Fields Num) (below : PlanNodes Float)
        → AllRedacted (all_conditions_in below)
        → Ensures
            (build_node numbers sqlglot text_of l raw below)
            (λ n. AllRedacted (all_conditions n))
    unfolding build_node all_conditions
    build_node-IsRedacted raw below h =
        Ensures-made _ (converted to_float (as_number numbers (get "Startup Cost" raw)))
          (converted to_float (as_number numbers (get "Total Cost" raw)))
          (converted to_int (as_number numbers (get "Plan Rows" raw)))
          (converted to_int (as_number numbers (get "Plan Width" raw))) validation_error
          (node_type raw)
          (λ op a a' b b'.
            PlanNode.node (node_fields numbers sqlglot text_of l raw op a a' b b') below)
          (λ op _ a a' b b'. All-append IsRedacted _ _ (conditions_of-IsRedacted raw) h)

    visit-Found :
        (raw : Fields Num) (depth : ℕ)
        (children : Traversal numbers sqlglot text_of l (PlanNodes Float)) (c : Counter)
        → ((d : Counter) → Ensures (children d) Kept)
        → Ensures (visit numbers sqlglot text_of l raw depth children c) Found
    unfolding visit
    visit-Found raw depth children c h = elim (Bool-cases (over l (c.visited + 1) depth)) [
      | inl high ↦ rw high tt
      | inr low ↦ rw low (
          Ensures-bind (children (record c { visited = c.visited + 1 })) _ Kept Found (h _) λ r s.
            Ensures-bind (build_node numbers sqlglot text_of l raw r.0) _
              (λ n. AllRedacted (all_conditions n)) Found (build_node-IsRedacted raw r.0 s)
              λ n b. b)
    ]

    plans_step :
        (key : String) (v : Json Num) (rest : Fields Num) (depth : ℕ) (c : Counter)
        → Ensures (normalize_list numbers sqlglot text_of l v depth c) Kept
        → Ensures (normalize_plans numbers sqlglot text_of l rest depth c) Kept
        → Ensures (normalize_plans numbers sqlglot text_of l (field key v rest) depth c) Kept
    unfolding normalize_plans
    plans_step key v rest depth c h k =
        elim (key == "Plans")
          as (λ b.
            Ensures
              (elim b [
                | true ↦ normalize_list numbers sqlglot text_of l v depth c
                | false ↦ normalize_plans numbers sqlglot text_of l rest depth c
              ])
              Kept) [ true ↦ h | false ↦ k ]

    kept :
        (o : Option (PlanNode Float)) (ns : PlanNodes Float)
        → AllRedacted (conditions_in o)
        → AllRedacted (all_conditions_in ns)
        → AllRedacted (all_conditions_in (keep numbers sqlglot text_of l o ns))
    unfolding all_conditions
    kept none ns h k = k
    kept (some n) ns h k = All-append IsRedacted _ _ h k

    mutual
      unfolding normalize_plans all_conditions

      plans-Kept :
          (raw : Fields Num) (depth : ℕ) (c : Counter)
          → Ensures (normalize_plans numbers sqlglot text_of l raw depth c) Kept
      plans-Kept end depth c = tt
      plans-Kept (field key v rest) depth c =
          plans_step key v rest depth c (list-Kept v depth c) (plans-Kept rest depth c)

      list-Kept :
          (v : Json Num) (depth : ℕ) (c : Counter)
          → Ensures (normalize_list numbers sqlglot text_of l v depth c) Kept
      list-Kept (arr items) depth c = all-Kept items depth c
      list-Kept _ depth c = tt

      all-Kept :
          (items : Items Num) (depth : ℕ) (c : Counter)
          → Ensures (normalize_items numbers sqlglot text_of l items depth c) Kept
      all-Kept nil depth c = tt
      all-Kept (cons v items) depth c =
          Ensures-bind (normalize_child numbers sqlglot text_of l v depth c) _ Found Kept
            (child-Found v depth c)
            λ r s.
              Ensures-bind (normalize_items numbers sqlglot text_of l items depth r.1) _ Kept Kept
                (all-Kept items depth r.1) λ r' t. kept r.0 r'.0 s t

      child-Found :
          (v : Json Num) (depth : ℕ) (c : Counter)
          → Ensures (normalize_child numbers sqlglot text_of l v depth c) Found
      child-Found (obj raw) depth c = visit-Found raw depth _ c (λ d. plans-Kept raw (depth + 1) d)
      child-Found _ depth c = tt

    conditions-IsRedacted :
        (loaded : Option (Json Num)) (now : Float)
        → Ensures
            (normalize_explain_json numbers sqlglot text_of l loaded now)
            (λ p. AllRedacted (all_conditions p.root))
    unfolding normalize_explain_json
    conditions-IsRedacted loaded now =
        Ensures-bind (as_single loaded) _ (λ top. as_single loaded ≡ ok top) _ (Ensures-self _)
          λ top _.
            Ensures-bind (as_dict (get "Plan" top)) _ (λ raw. as_dict (get "Plan" top) ≡ ok raw) _
              (Ensures-self _)
              λ raw _.
                Ensures-bind
                  (normalize_node numbers sqlglot text_of l raw 1
                    (record { visited = 0; suppressed = 0 }))
                  _ Found _
                  (unfold normalize_node in
                    visit-Found raw 1 _ (record { visited = 0; suppressed = 0 })
                      (λ d. plans-Kept raw 2 d))
                  λ r s.
                    Ensures-bind (required parse_error r.0) _ (λ root. r.0 ≡ some root) _
                      (Ensures-required parse_error r.0)
                      λ root e.
                        Ensures-bind
                          (converted to_float (as_number numbers (get "Planning Time" top))) _
                          (λ t.
                            converted to_float (as_number numbers (get "Planning Time" top)) ≡ ok t)
                          _ (Ensures-self _) λ t _. rw e at s

    -- In a returned plan every condition's expression is a result of `redact_literals`, and none
    -- is longer than `max_plan_condition_chars`, or 30 where that is less.
    pub normalize_redacts :
        (loaded : Option (Json Num)) (now : Float) {p : ParsedPlan Float}
        → normalize_explain_json numbers sqlglot text_of l loaded now ≡ ok p
        → All IsRedacted (all_conditions p.root)
    normalize_redacts loaded now e =
        Ensures-elim _ (λ p. AllRedacted (all_conditions p.root)) (conditions-IsRedacted loaded now)
          e
