-- ===== src/Credentials.antt =====
-- backend/app/auth/store.py and models.py: the credentials of the providers.
pub mod Store
pub mod Calls
pub mod Held
pub mod Durable
mod Examples
