-- ===== src/Postgres.antt =====
-- db/postgres.py and db/errors.py: the connection URI, the checks of a new connection, and EXPLAIN.
pub mod Errors
pub mod Uri
pub mod Connect
pub mod Explain
