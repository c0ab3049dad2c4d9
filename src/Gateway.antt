-- ===== src/Gateway.antt =====
-- identity-gateway/aw_gateway: the public entry point of the multi-user deployment.
pub mod Identity
pub mod Broker
pub mod BrokerBounds
pub mod BrokerTickets
pub mod Routes
pub mod Examples
pub mod Proxy
