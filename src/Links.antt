-- ===== src/Links.antt =====
-- backend/app/services/task_links.py: the link of a task.
pub mod Resolve
pub mod Safe
mod Examples
