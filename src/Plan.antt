-- ===== src/Plan.antt =====
-- src/ezsql/core/sql/plan.py: the planner's plan, from EXPLAIN's JSON to a summary and a delta.
pub mod Json
pub mod Model
pub mod Redact
pub mod Normalize
pub mod Summary
pub mod Delta
