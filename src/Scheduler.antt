-- ===== src/Scheduler.antt =====
-- src/nexolith/scheduler: when DAGs are run, and by which process.
pub mod Interval
pub mod Daemon
pub mod Pidfile
pub mod Status
pub mod Control
