-- ===== src/Instance.antt =====
-- The bots of a fleet and their schedules (packages/core/src/instance).
pub mod Schedule
pub mod Due
pub mod Scheduler
pub mod McConfig
pub mod ConfigDrift
pub mod Task
pub mod TaskRun
pub mod TaskScheduler
mod Tests
