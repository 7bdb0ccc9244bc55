-- ===== src/ProxyCache.antt =====
-- internal/proxy/cache: the response cache in front of the reverse proxy.
pub mod Variant
pub mod Directives
pub mod Stash
pub mod Response
pub mod Handler
pub mod Memory
