-- ===== src/Http.antt =====
-- The parts of Go's net/http that the proxy's handlers use: header maps, requests, the interface
-- ResponseWriter, and the server's own writer, which ends every chain of wrappers.
pub mod Header
pub mod Request
pub mod Writer
pub mod Client
