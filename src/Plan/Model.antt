-- ===== src/Plan/Model.antt =====
-- The models of a normalized plan, and the measures of a plan tree.
use ezsql.Base.{ℕ, suc, max, String, Bool, Option, List, [], ◌∷◌, ◌++◌}
use ezsql.Base.Dict.{Dict}
use ezsql.Base.Int.{ℤ}

pub data PlanConditionKind : Type 0 where
  filter index_cond join_filter hash_cond merge_cond recheck_cond other : PlanConditionKind

pub record PlanCondition : Type 0 where
  pub kind : PlanConditionKind
  pub expression : String

-- The fields of a `PlanNode` without its children.
pub record NodeFields (F : Type 0) : Type 0 where
  pub op : String
  pub relation : Option String
  pub index : Option String
  pub startup_cost : Option F
  pub total_cost : Option F
  pub estimated_rows : Option ℤ
  pub row_width : Option ℤ
  pub conditions : List PlanCondition

mutual
  pub data PlanNode (F : Type 0) : Type 0 where
    node : NodeFields F → PlanNodes F → PlanNode F

  pub data PlanNodes (F : Type 0) : Type 0 where
    nil : PlanNodes F
    cons : PlanNode F → PlanNodes F → PlanNodes F

abbrev pub fields : {F : Type 0} → PlanNode F → NodeFields F
fields (node f children) = f

pub record ParsedPlan (F : Type 0) : Type 0 where
  pub root : PlanNode F
  pub planning_time_ms : Option F
  pub settings : Dict String String
  pub captured_at : F
  pub truncated : Bool
  pub nodes_suppressed : ℕ

-- The operations of a tree, a node before its children and these from left to right.
unfoldable mutual
  pub ops : {F : Type 0} → PlanNode F → List String
  ops (node f children) = f.op ∷ ops_all children

  pub ops_all : {F : Type 0} → PlanNodes F → List String
  ops_all nil = []
  ops_all (cons n rest) = ops n ++ ops_all rest

-- The nodes on the longest path from the root.
unfoldable mutual
  pub height : {F : Type 0} → PlanNode F → ℕ
  height (node f children) = suc (height_all children)

  pub height_all : {F : Type 0} → PlanNodes F → ℕ
  height_all nil = 0
  height_all (cons n rest) = max (height n) (height_all rest)

-- Every condition of a tree.
unfoldable mutual
  pub all_conditions : {F : Type 0} → PlanNode F → List PlanCondition
  all_conditions (node f children) = f.conditions ++ all_conditions_in children

  pub all_conditions_in : {F : Type 0} → PlanNodes F → List PlanCondition
  all_conditions_in nil = []
  all_conditions_in (cons n rest) = all_conditions n ++ all_conditions_in rest
