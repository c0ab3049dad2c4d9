-- ===== src/Calendar.antt =====
-- backend/app/services/calendar_capacity.py: free study time.
pub mod Intervals
pub mod Merge
pub mod Subtract
mod Examples
