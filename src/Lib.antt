-- ===== src/Lib.antt =====
-- ezsql: a server between a coding agent and SQL databases, with what makes its parts correct.
--
-- The program (src/ezsql) takes SQL and a project's root from an agent, and answers with analyses,
-- rewrites, security findings and the planner's evidence. Its parts, and the files that model them:
--
-- * src/ezsql/core/sql/plan.py turns the JSON of PostgreSQL's EXPLAIN into a bounded, redacted plan
--   tree (`normalize_explain_json`), sums it up (`summarize_plan`) and compares two plans
--   (`compute_plan_delta`). Plan/Json has the decoded JSON and the host's numbers, Plan/Model the
--   models, Plan/Redact `redact_literals`, Plan/Normalize the traversal with its counter; its
--   children prove what it keeps. Plan/Summary and Plan/Delta have the other two functions.
-- * src/ezsql/db/lifecycle.py shares database adapters between calls. Lifecycle has the blocks that
--   run under the manager's lock as functions on its state, and Lifecycle/World their interleavings
--   as a step relation, with the waiting calls listed and the end of each wait left open.
-- * src/ezsql/cache/store.py keeps results in memory and in a SQLite table. Cache has both tiers and
--   the operations of `CacheStore`, a statement on the table as a function on its rows; its children
--   prove what they hold and what a read gives. The eviction loop has the number of rows as fuel.
-- * src/ezsql/core/security/engine.py runs security rules over units of text. Security/Model has its
--   data and Security/Engine the engine, with the parser as a parameter; Security/Coverage and
--   Security/Findings are about its two results.
-- * src/ezsql/core/sql/explain_gate.py decides which text may be explained on a live database. Gate
--   has its checks over an abstract tree, and Gate/Accepts what passes them.
-- * src/ezsql/tasks/registry.py keeps references to results under a task's name until they expire.
--   Tasks has the registry, with the clock and the cache as arguments, and Tasks/Refs what it keeps.
-- * src/ezsql/observability.py counts and redacts log events: Counters.
-- * src/ezsql/llm/escalate.py asks a language model, within a budget: Escalate, with the transport as
--   a parameter and the request as a part of the outcome.
-- * src/ezsql/pipelines/optimize_runtime.py explains rewritten queries: Optimize has the choice of
--   them, which asks the gate, and Optimize/Evidence the merge of what the planner said.
-- * src/ezsql/config.py reads the settings. Config/Fields has its tables, Config/Validate the checks and
--   `load_config`; Config/Relations and Config/Bounds are about what is loaded. Its numbers are
--   integers, since a file may hold negative ones.
--
-- * src/ezsql/core/schema/ddl.py replays migration files into a schema (core/schema/model.py).
--   Schema/Model has the schema, Schema/Ordering the order of the files, Schema/Replay the effect of
--   each statement, with Create and Change for the statements of either kind, and Schema/Migrations
--   `parse_migrations`. The other children prove what the schema is.
-- * src/ezsql/core/schema/repository.py finds and reads the migrations of a project within limits:
--   Schema/Repository, over a tree of directories, and Schema/Repository/Load.
-- * src/ezsql/core/context/scan.py reports the files of a project that have to do with SQL: Scan, over
--   a tree of directories as a list in the order of the walk, with Scan/Limits for how many.
-- * src/ezsql/cache/keys.py builds the texts of which the keys of the cache are digests: Keys, with
--   Keys/Decode to read a text back and Keys/Separate for what two inputs with one text share.
-- * src/ezsql/server/roots.py decides the root of the project (Roots), and
--   src/ezsql/core/context/docs.py which sections of the documents answer a query (Docs, with
--   Docs/Ranking).
-- * src/ezsql/db/postgres.py is the adapter of a database, and db/errors.py its errors.
--   Postgres/Errors has these and what a call that may raise gives back, Postgres/Uri the connection
--   URI, Postgres/Connect the connection with the checks of server and role, and Postgres/Explain the
--   one query, which goes on to core/sql/plan. What the server answers is a record.
--
-- Numbers are natural numbers. What Python raises is a value of a result type. The functions of
-- imported packages (sqlglot, the float arithmetic of the host) are parameters: records of the
-- functions that the code calls, with concrete ones in Tests/Host. A tree is walked by structural
-- recursion.
--
-- Not modelled: reading files and environment variables, sockets, logging, SQL parsing itself, the
-- driver's pool and the texts of the tools' documentation.
pub mod Base
pub mod Plan
pub mod Lifecycle
pub mod Cache
pub mod Security
pub mod Gate
pub mod Tasks
pub mod Counters
pub mod Escalate
pub mod Optimize
pub mod Config
pub mod Keys
pub mod Roots
pub mod Docs
pub mod Scan
pub mod Schema
pub mod Postgres
mod Tests
