-- ===== src/Tokens.antt =====
-- backend/app/services/canvas_lifecycle.py: the expiry of a Canvas token.
pub mod Lifecycle
pub mod Expiry
mod Examples
