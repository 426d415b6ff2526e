-- ===== src/Gateway.antt =====
-- The API gateway (api-gateway/src): who is let in, what is forwarded, and how often one may ask.
pub mod Auth
pub mod Proxy
pub mod Throttler
mod Scenarios
mod Requests
