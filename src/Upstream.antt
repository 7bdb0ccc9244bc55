-- ===== src/Upstream.antt =====
-- internal/upstream/server.go: the supervisor of the upstream command.
pub mod Command
pub mod Environment
pub mod Lifecycle
pub mod Prepare
