-- ===== src/Plan.antt =====
-- backend/app/services/planner.py: the division of work into blocks and their places in the week.
pub mod Blocks
pub mod Split
pub mod Places
pub mod Inside
pub mod Stored
pub mod Active
mod Examples
