-- ===== src/Plan/Normalize/Outcome.antt =====
-- What `normalize_explain_json` returns: the bounds of the tree, and what it keeps of the raw plan.
use ezsql.Base.{◌≤◌, String, ◌≡◌, refl, false, Option, some, length, arith, ltb}
use ezsql.Plan.Json.{Numbers, Json, Fields, arr, obj, nil, cons, get, as_number}
use ezsql.Plan.Model.{ParsedPlan, ops, height}
use ezsql.Plan.Redact.{Sqlglot}
use ezsql.Plan.Normalize.{
  ok, parse_error, Limits, Counter, converted, required, normalize_node, as_single, as_dict,
  normalize_explain_json,
}
use ezsql.Plan.Normalize.Sound.{
  Ensures, Ensures-bind, Ensures-self, Ensures-elim, Ensures-required, Sound, node-Sound, raw_ops,
  ops_of, height_of,
}

abbrev start : Counter
start = record { visited = 0; suppressed = 0 }

module _ (numbers : Numbers) (sqlglot : Sqlglot) (text_of : Json numbers.Num → String) where
  open numbers use {Num, Float, to_float}

  -- The raw plan that the result stands for, and what the traversal made of it.
  record IsOutcome (l : Limits) (loaded : Option (Json Num)) (p : ParsedPlan Float) : Type 0 where
    top : Fields Num
    raw : Fields Num
    single : as_single loaded ≡ ok top
    plan : as_dict (get "Plan" top) ≡ ok raw
    counter : Counter
    sound : Sound l 1 (raw_ops raw) start (ops p.root) (height p.root) counter
    suppressed : p.nodes_suppressed ≡ counter.suppressed
    truncated : p.truncated ≡ ltb 0 counter.suppressed

  normalize-IsOutcome :
      (l : Limits) (loaded : Option (Json Num)) (now : Float)
      → Ensures (normalize_explain_json numbers sqlglot text_of l loaded now) (IsOutcome l loaded)
  unfolding normalize_explain_json
  normalize-IsOutcome l loaded now =
      Ensures-bind (as_single loaded) _ (λ top. as_single loaded ≡ ok top) (IsOutcome l loaded)
        (Ensures-self (as_single loaded))
        λ top is_single.
          Ensures-bind (as_dict (get "Plan" top)) _ (λ raw. as_dict (get "Plan" top) ≡ ok raw)
            (IsOutcome l loaded) (Ensures-self (as_dict (get "Plan" top)))
            λ raw is_plan.
              Ensures-bind (normalize_node numbers sqlglot text_of l raw 1 start) _
                (λ r. Sound l 1 (raw_ops raw) start (ops_of r.0) (height_of r.0) r.1)
                (IsOutcome l loaded) (node-Sound numbers sqlglot text_of l raw 1 start)
                λ r s.
                  Ensures-bind (required parse_error r.0) _ (λ root. r.0 ≡ some root)
                    (IsOutcome l loaded) (Ensures-required parse_error r.0)
                    λ root e.
                      Ensures-bind
                        (converted to_float (as_number numbers (get "Planning Time" top))) _
                        (λ t.
                          converted to_float (as_number numbers (get "Planning Time" top)) ≡ ok t)
                        (IsOutcome l loaded) (Ensures-self _)
                        λ t _. record {
                          top = top;
                          raw = raw;
                          single = is_single;
                          plan = is_plan;
                          counter = r.1;
                          sound = rw e at s;
                          suppressed = refl;
                          truncated = refl;
                        }

  module _ (l : Limits) (loaded : Option (Json Num)) (now : Float) {p : ParsedPlan Float}
      (returned : normalize_explain_json numbers sqlglot text_of l loaded now ≡ ok p) where
    outcome : IsOutcome l loaded p
    outcome = Ensures-elim _ (IsOutcome l loaded) (normalize-IsOutcome l loaded now) returned

    -- A returned plan has at most `max_plan_nodes` nodes and is at most `max_plan_depth` deep.
    pub normalize_bounds : (length (ops p.root) ≤ l.max_nodes) × (height p.root ≤ l.max_depth)
    normalize_bounds =
        let s = outcome.sound in
        let b = s.bounded (omega arith) in (omega (arith, s.accounted, b), omega (arith, s.deep))

    -- A returned plan that is not marked as truncated counts no suppressed node, and it has the
    -- operations of the whole raw plan, each node before its children.
    pub normalize_complete :
        (raw : Fields Num) (top : Fields Num)
        → loaded ≡ some (arr (cons (obj top) nil))
        → get "Plan" top ≡ some (obj raw)
        → p.truncated ≡ false
        → (ops p.root ≡ raw_ops raw) × (p.nodes_suppressed ≡ 0)
    normalize_complete raw top is_single is_plan whole =
        let o = outcome in
        let same_top : o.top ≡ top = ground (arith, o.single) in
        let same_raw : o.raw ≡ raw = ground (arith, o.plan, same_top) in
        (
          rw (← same_raw) (o.sound.complete (ground (arith, o.truncated))),
          ground (arith, o.truncated, o.suppressed),
        )
