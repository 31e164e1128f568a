-- ===== src/Config.antt =====
-- src/nexolith/config: pipeline files.
pub mod Environment
pub mod Models
pub mod Loader
