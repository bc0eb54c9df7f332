-- ===== src/Tests.antt =====
-- Concrete inputs: the definitions run on them, and the theorems are applied at them.
mod PlanTests
mod LifecycleTests
mod Host
mod CacheTests
mod SecurityTests
mod GateTests
mod TasksTests
mod EscalateTests
mod OptimizeTests
mod ConfigTests
mod SchemaTests
mod ScanTests
mod RepositoryTests
mod DocsTests
mod RootsTests
mod KeysTests
mod PostgresTests
