-- ===== src/Changes.antt =====
-- backend/app/services/change_policy.py: which observed differences become changes for the user.
pub mod Json
pub mod Policy
pub mod Release
pub mod PolicyLaws
mod Examples
