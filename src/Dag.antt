-- ===== src/Dag.antt =====
-- src/nexolith/dag: the configuration of DAGs, its validation and its execution.
pub mod Models
pub mod Order
pub mod Cycles
pub mod Dependents
pub mod Executor
pub mod Validator
pub mod Registration
