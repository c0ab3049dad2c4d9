-- ===== src/Gateway/Examples.antt =====
-- Tests of the gateway's model, and its theorems at concrete inputs.
pub mod Setup
mod Sessions
mod Registration
mod Broker
mod Routes
mod Proxy
