-- ===== src/Server.antt =====
-- internal/server: the HTTP server and the middleware around the application.
pub mod Http
pub mod Middleware
pub mod Options
pub mod Recorder
