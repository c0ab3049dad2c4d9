-- ===== src/Analysis.antt =====
-- backend/app/ai/queue.py and backend/app/services/assignment_summaries.py: the queue of analyses.
pub mod Schema
pub mod Enqueue
pub mod Worker
pub mod Summaries
pub mod Rows
pub mod Turn
pub mod Bounded
pub mod Chosen
pub mod Summarized
pub mod Settled
pub mod Notify
mod Examples
