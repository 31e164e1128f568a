-- ===== src/State.antt =====
-- src/nexolith/state: run history in SQLite.
pub mod Models
pub mod Store
pub mod Keys
pub mod Schema
pub mod Attempts
pub mod Reconcile
pub mod Calls
pub mod WellFormed
