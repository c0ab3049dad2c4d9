-- ===== src/Gateway/Routes.antt =====
-- identity-gateway/aw_gateway/main.py: the routes over the identity store and the broker map.
pub mod Http
pub mod SignIn
pub mod Admin
pub mod Administrated
pub mod Tenant
pub mod Handled
pub mod Gate
pub mod Login
pub mod Refused
pub mod Frontend
