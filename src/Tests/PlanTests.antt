-- ===== src/Tests/PlanTests.antt =====
-- A plan of three nodes, whole and cut.
use ezsql.Base.{
  ℕ, suc, ◌≤◌, ◌<◌, String, ◌≡◌, refl, Bool, true, false, Option, none, some, List, [], ◌∷◌, length,
  max, All, select,
}
use ezsql.Base.Int.{ℤ, pos}
use ezsql.Plan.Json.{Json, Fields, null, number, str, arr, obj, nil, cons, end, field, get}
use ezsql.Plan.Model
use ezsql.Plan.Model.{
  PlanNode, PlanNodes, ParsedPlan, NodeFields, fields, ops, height, all_conditions,
}
use ezsql.Plan.Redact.{redact_literals}
use ezsql.Plan.Normalize.{Limits, ok, normalize_explain_json}
use ezsql.Plan.Normalize.Sound.{raw_ops}
use ezsql.Plan.Normalize.Outcome.{normalize_bounds, normalize_complete}
use ezsql.Plan.Normalize.Conditions.{IsRedacted, normalize_redacts}
use ezsql.Plan.Summary.{summarize_plan, summarize_counts, is_scan, is_join}
use ezsql.Tests.Host.{integers, literals}

abbrev scan : Fields ℤ
scan =
    field "Node Type" (str "Seq Scan")
      (field "Plan Rows" (number (pos 7)) (field "Filter" (str "42") end))

abbrev join : Fields ℤ
join = field "Node Type" (str "Nested Loop") (
    field "Plan Rows" (number (pos 100)) (
      field "Join Filter" (arr (cons (str "a") (cons null nil)))
        (field "Plans" (arr (cons (obj scan) (cons (obj scan) nil))) end)))

abbrev top : Fields ℤ
top = field "Plan" (obj join) (field "Planning Time" (number (pos 3)) end)

abbrev pub loaded : Option (Json ℤ)
loaded = some (arr (cons (obj top) nil))

abbrev pub text_of : Json ℤ → String
text_of v = ""

abbrev pub limits : Limits
limits = record { max_nodes = 500; max_depth = 64; max_condition_chars = 64 }

abbrev scan_node : PlanNode ℤ
scan_node =
    Model.node
      (record {
        op = "Seq Scan";
        relation = none;
        index = none;
        startup_cost = none;
        total_cost = none;
        estimated_rows = some (pos 7);
        row_width = none;
        conditions = record { kind = Model.filter; expression = "<number>" } ∷ [];
      })
      Model.nil

abbrev pub whole : ParsedPlan ℤ
whole = record {
  root =
      Model.node
        (record {
          op = "Nested Loop";
          relation = none;
          index = none;
          startup_cost = none;
          total_cost = none;
          estimated_rows = some (pos 100);
          row_width = none;
          conditions =
              record { kind = Model.join_filter; expression = "<bytes>" }
              ∷ record { kind = Model.join_filter; expression = "<redacted-unparsed-expression>" }
              ∷ [];
        })
        (Model.cons scan_node (Model.cons scan_node Model.nil));
  planning_time_ms = some (pos 3);
  settings = [];
  captured_at = pos 0;
  truncated = false;
  nodes_suppressed = 0;
}

run : Unit {0}
unfolding normalize_explain_json redact_literals get
run = tt

pub normalize_runs :
    normalize_explain_json integers literals text_of limits loaded (pos 0) ≡ ok whole
unfolding run
normalize_runs = refl

normalize_bounds_example : (length (ops whole.root) ≤ 500) × (height whole.root ≤ 64)
normalize_bounds_example =
    normalize_bounds integers literals text_of limits loaded (pos 0) normalize_runs

normalize_complete_example : (ops whole.root ≡ raw_ops join) × (whole.nodes_suppressed ≡ 0)
unfolding run
normalize_complete_example =
    normalize_complete integers literals text_of limits loaded (pos 0) normalize_runs join top refl
      refl refl

normalize_redacts_example :
    All (IsRedacted integers literals text_of limits) (all_conditions whole.root)
normalize_redacts_example =
    normalize_redacts integers literals text_of limits loaded (pos 0) normalize_runs

summarize_runs :
    let s = summarize_plan whole in
    (s.node_count ≡ 3)
    × (s.scan_ops ≡ "Seq Scan" ∷ "Seq Scan" ∷ [])
    × (s.join_ops ≡ "Nested Loop" ∷ [])
unfolding summarize_plan ezsql.Base.text_contains
summarize_runs = (refl, refl, refl)

summarize_counts_example :
    let s = summarize_plan whole in
    (s.node_count ≡ length (ops whole.root))
    × (s.scan_ops ≡ select is_scan (ops whole.root))
    × (s.join_ops ≡ select is_join (ops whole.root))
summarize_counts_example = summarize_counts whole

abbrev smaller : ParsedPlan ℤ
smaller = record whole { root = scan_node }
