-- ===== src/Config.antt =====
-- internal/nginxtime, internal/config, the definitions of internal/store, and main's small parts.
pub mod Seconds
pub mod Settings
pub mod Catalog
pub mod Startup
