-- ===== src/Orders.antt =====
-- The order service (order-service/src): its rows, the checks that it asks of other services, its
-- operations on orders, the events of the inventory that it handles, and its outbox.
pub mod Entities
pub mod Validation
pub mod Repository
pub mod Service
pub mod Inventory
pub mod Access
pub mod Routes
pub mod Histories
pub mod Announcements
pub mod Relay
mod Scenarios
mod RelayScenario
