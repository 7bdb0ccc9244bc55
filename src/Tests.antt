-- ===== src/Tests.antt =====
-- Concrete parameters and inputs at which the theorems' hypotheses hold.
mod Rows
mod ConcurrentTests
mod CacheTests
mod ResponseTests
mod UsersTests
mod UpstreamTests
mod WriterTests
mod HandlerTests
mod LifecycleTests
mod ServerTests
mod ChainTests
mod StartTests
mod ProvenanceTests
mod DatabaseTests
