-- ===== src/Proxy.antt =====
-- internal/proxy: the reverse proxy's own parts, X-Sendfile and the settings of its transport.
pub mod Reverse
pub mod Sendfile
