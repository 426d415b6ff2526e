-- ===== src/Payments.antt =====
-- The payment service (payment-service/src).
pub mod Entities
pub mod Provider
pub mod Tables
pub mod Charge
pub mod Refund
pub mod Handlers
pub mod Ledger
pub mod Soundness
pub mod Histories
pub mod Faults
pub mod Policy
pub mod Controller
pub mod Http
pub mod Events
pub mod Consumer
pub mod Lambda
pub mod Relay
mod Scenarios
mod Requests
