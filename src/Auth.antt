-- ===== src/Auth.antt =====
-- backend/app/auth: how a tenant's backend lets the desktop broker sign in to a provider.
pub mod Challenge
pub mod Calls
pub mod RowLaws
pub mod Decided
pub mod Tokens
mod Examples
