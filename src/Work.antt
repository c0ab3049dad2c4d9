-- ===== src/Work.antt =====
-- backend/app/services/completion.py and work_tracking.py: progress of tasks and the work timer.
pub mod Schema
pub mod Progress
pub mod Timer
pub mod Heartbeat
pub mod RevisionLaws
pub mod OpenRows
pub mod Sound
pub mod ProgressSound
pub mod Calls
mod Examples
pub mod Repair
pub mod Repaired
mod RepairExamples
