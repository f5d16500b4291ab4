-- ===== src/Store.antt =====
-- internal/state: the keys of Redis and the meta of a set.
pub mod Meta
pub mod Commands
pub mod Redis
