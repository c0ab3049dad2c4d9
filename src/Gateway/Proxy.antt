-- ===== src/Gateway/Proxy.antt =====
-- identity-gateway/aw_gateway/config.py and proxy.py: the way from the gateway to a tenant.
pub mod Config
pub mod Forward
pub mod Private
pub mod Streamed
