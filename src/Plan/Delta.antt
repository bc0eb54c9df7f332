-- ===== src/Plan/Delta.antt =====
-- `compute_plan_delta`. A cost's difference is the host's subtraction of floats, and the test on
-- the ratio of the row counts is the host's too: a division of integers as doubles.
use ezsql.Base.{Bool, false, ◌&&◌, Option, none, some, if◌then◌else◌}
use ezsql.Base.Int.{ℤ, pos, ◌-ℤ◌, abs, ltb_ℤ}
use ezsql.Plan.Json.{Numbers}
use ezsql.Plan.Model.{ParsedPlan, fields}

pub record PlanDelta (F : Type 0) : Type 0 where
  pub original_total_cost : Option F
  pub candidate_total_cost : Option F
  pub cost_delta : Option F
  pub cost_delta_pct : Option F
  pub original_estimated_rows : Option ℤ
  pub candidate_estimated_rows : Option ℤ
  pub rows_delta : Option ℤ
  pub original_planning_time_ms : Option F
  pub candidate_planning_time_ms : Option F
  pub cardinality_changed : Bool

-- Both operands, or nothing.
abbrev pub both {ℓ} : {A B : Type ℓ} → (A → A → Option B) → Option A → Option A → Option B
both f (some a) (some b) = f a b
both f _ _ = none

abbrev pub is_positive : ℤ → Bool
is_positive = ltb_ℤ (pos 0)

module _ (numbers : Numbers) where
  open numbers use {Float, sub, div, mul, hundred, is_pos, exceeds_tenth}

  abbrev pub rows_changed : ℤ → ℤ → Bool
  rows_changed o c = is_positive o && is_positive c && exceeds_tenth (abs (c -ℤ o)) (abs o)

  abbrev pub changed : Option ℤ → Option ℤ → Bool
  changed (some o) (some c) = rows_changed o c
  changed _ _ = false

  unfoldable pub compute_plan_delta : ParsedPlan Float → ParsedPlan Float → PlanDelta Float
  compute_plan_delta original candidate =
      let o = fields original.root in
      let c = fields candidate.root in
      record {
        original_total_cost = o.total_cost;
        candidate_total_cost = c.total_cost;
        cost_delta = both (λ a b. some (sub b a)) o.total_cost c.total_cost;
        cost_delta_pct =
            both (λ a b. if is_pos a then some (mul (div (sub b a) a) hundred) else none)
              o.total_cost c.total_cost;
        original_estimated_rows = o.estimated_rows;
        candidate_estimated_rows = c.estimated_rows;
        rows_delta = both (λ a b. some (b -ℤ a)) o.estimated_rows c.estimated_rows;
        original_planning_time_ms = original.planning_time_ms;
        candidate_planning_time_ms = candidate.planning_time_ms;
        cardinality_changed = changed o.estimated_rows c.estimated_rows;
      }
