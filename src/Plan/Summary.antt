-- ===== src/Plan/Summary.antt =====
-- `summarize_plan`. The lists that the inner `walk` appends to are passed along.
use ezsql.Base.{
  ℕ, ◌+◌, String, ◌≡◌, refl, ap, Bool, ◌||◌, Option, List, [], ◌∷◌, ◌++◌, length, length-append,
  select, text_contains, ◌==◌, string_eq, if◌then◌else◌, arith, Bool-cases, ◌∙◌, sym, inl, inr,
}
use mathlib.Core.List.{append-nil, append_assoc}
use ezsql.Base.Int.{ℤ}
use ezsql.Plan.Model.{PlanNode, PlanNodes, ParsedPlan, node, nil, cons, fields, ops, ops_all}

pub record PlanSummary (F : Type 0) : Type 0 where
  pub root_op : String
  pub root_relation : Option String
  pub root_total_cost : Option F
  pub root_estimated_rows : Option ℤ
  pub planning_time_ms : Option F
  pub node_count : ℕ
  pub scan_ops : List String
  pub join_ops : List String
  pub truncated : Bool

abbrev pub is_scan : String → Bool
is_scan op = text_contains "Scan" op

abbrev pub is_join : String → Bool
is_join op = text_contains "Join" op || op == "Nested Loop"

-- The two lists of the closure.
pub record Ops : Type 0 where
  pub scan_ops : List String
  pub join_ops : List String

abbrev pub note : String → Ops → Ops
note op o = record {
  scan_ops = if is_scan op then o.scan_ops ++ op ∷ [] else o.scan_ops;
  join_ops = if is_join op then o.join_ops ++ op ∷ [] else o.join_ops;
}

-- `walk(node)`: the count of its nodes, and the lists after it.
unfoldable mutual
  pub walk : {F : Type 0} → PlanNode F → Ops → ℕ × Ops
  walk (node f children) o = walk_all children 1 (note f.op o)

  pub walk_all : {F : Type 0} → PlanNodes F → ℕ → Ops → ℕ × Ops
  walk_all nil count o = (count, o)
  walk_all (cons child rest) count o = walk_all rest (count + (walk child o).0) (walk child o).1

unfoldable pub summarize_plan : {F : Type 0} → ParsedPlan F → PlanSummary F
unfolding walk
summarize_plan plan =
    let (node_count, o) = walk plan.root (record { scan_ops = []; join_ops = [] }) in
    record {
      root_op = (fields plan.root).op;
      root_relation = (fields plan.root).relation;
      root_total_cost = (fields plan.root).total_cost;
      root_estimated_rows = (fields plan.root).estimated_rows;
      planning_time_ms = plan.planning_time_ms;
      node_count = node_count;
      scan_ops = o.scan_ops;
      join_ops = o.join_ops;
      truncated = plan.truncated;
    }

select-append :
    (p : String → Bool) (xs ys : List String) → select p (xs ++ ys) ≡ select p xs ++ select p ys
select-append p [] ys = refl
select-append p (x ∷ xs) ys = elim (Bool-cases (p x)) [
  | inl e ↦ rw e (ap (◌∷◌ x) (select-append p xs ys))
  | inr e ↦ rw e (select-append p xs ys)
]

-- The lists after a walk over nodes with the operations `l`.
noted : List String → Ops → Ops
noted l o = record {
  scan_ops = o.scan_ops ++ select is_scan l;
  join_ops = o.join_ops ++ select is_join l;
}

append-if :
    (p : String → Bool) (op : String) (xs l : List String)
    → (if p op then xs ++ op ∷ [] else xs) ++ select p l ≡ xs ++ select p (op ∷ l)
append-if p op xs l = elim (Bool-cases (p op)) [
  | inl e ↦ rw e (append_assoc xs (op ∷ []) (select p l))
  | inr e ↦ rw e
]

noted-note : (op : String) (l : List String) (o : Ops) → noted l (note op o) ≡ noted (op ∷ l) o
unfolding noted
noted-note op l o = λ i. record {
  scan_ops = append-if is_scan op o.scan_ops l i;
  join_ops = append-if is_join op o.join_ops l i;
}

noted-append : (xs ys : List String) (o : Ops) → noted ys (noted xs o) ≡ noted (xs ++ ys) o
unfolding noted
noted-append xs ys o = simp (append_assoc, select-append)

noted-nil : (o : Ops) → noted [] o ≡ o
unfolding noted
noted-nil o = simp append-nil

counted : {m n : ℕ} {o o' : Ops} → m ≡ n → o ≡ o' → ◌≡◌ {A = ℕ × Ops} (m, o) (n, o')
counted p q = λ i. (p i, q i)

mutual
  unfolding walk ops

  walk-noted :
      {F : Type 0} (n : PlanNode F) (o : Ops) → walk n o ≡ (length (ops n), noted (ops n) o)
  walk-noted (node f children) o =
      walk_all-noted children 1 (note f.op o)
      ∙ counted (omega arith) (noted-note f.op (ops_all children) o)

  walk_all-noted :
      {F : Type 0} (ns : PlanNodes F) (count : ℕ) (o : Ops)
      → walk_all ns count o ≡ (count + length (ops_all ns), noted (ops_all ns) o)
  walk_all-noted nil count o = counted (omega arith) (sym (noted-nil o))
  walk_all-noted (cons child rest) count o = rw (walk-noted child o) (
      walk_all-noted rest (count + length (ops child)) (noted (ops child) o)
      ∙ counted (omega (arith, length-append (ops child) (ops_all rest)))
          (noted-append (ops child) (ops_all rest) o))

-- The summary counts every node of the plan, and lists its scans and its joins: the operations
-- that name a scan, and those that name a join or are a nested loop, in the order of the plan.
pub summarize_counts :
    {F : Type 0} (plan : ParsedPlan F)
    → let s = summarize_plan plan in
      (s.node_count ≡ length (ops plan.root))
      × (s.scan_ops ≡ select is_scan (ops plan.root))
      × (s.join_ops ≡ select is_join (ops plan.root))
unfolding summarize_plan noted
summarize_counts plan =
    let e = walk-noted plan.root (record { scan_ops = []; join_ops = [] }) in
    (ap (λ r. r.0) e, ap (λ r. r.1.scan_ops) e, ap (λ r. r.1.join_ops) e)
