-- ===== src/Scheduling.antt =====
-- kernel/src/scheduling and kernel/src/helpers/time.rs.
pub mod Task
pub mod Scheduler
