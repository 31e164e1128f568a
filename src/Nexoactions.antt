-- ===== src/Nexoactions.antt =====
-- src/nexolith/nexoactions: what follows a write, on the rows that match a condition.
pub mod Contracts
pub mod Conditions
pub mod Execution
