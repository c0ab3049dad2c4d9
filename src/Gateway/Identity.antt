-- ===== src/Gateway/Identity.antt =====
-- identity-gateway/aw_gateway/store.py and security.py, one module for each group of methods of
-- `IdentityStore`.
pub mod Schema
pub mod Tx
pub mod Names
pub mod Security
pub mod Accounts
pub mod Sessions
pub mod Attempts
pub mod Callbacks
pub mod Slots
pub mod Invariant
pub mod Preserved
pub mod Calls
pub mod SessionLaws
pub mod CallbackLaws
pub mod AttemptLaws
pub mod InvitationLaws
pub mod OwnerLaws
