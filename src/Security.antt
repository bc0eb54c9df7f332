-- ===== src/Security.antt =====
-- src/ezsql/core/security: its data, the engine, and what the engine gives.
pub mod Model
pub mod Engine
pub mod Coverage
pub mod Findings
