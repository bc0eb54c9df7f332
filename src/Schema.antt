-- ===== src/Schema.antt =====
-- src/ezsql/core/schema: the schema's data, the order of migrations, and the replay of their
-- statements.
pub mod Model
pub mod Ordering
pub mod Replay
pub mod Migrations
pub mod Repository
