-- ===== src/Users.antt =====
-- internal/model, internal/cache and internal/dao: the records of users, cached.
pub mod Model
pub mod Cache
pub mod Dao
pub mod Ecode
pub mod Handler
pub mod Types
