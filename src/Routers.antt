-- ===== src/Routers.antt =====
-- internal/routers: who may call the API of users, and what the proxy's handlers are.
pub mod Proxy
pub mod Rails
pub mod Setup
pub mod Users
