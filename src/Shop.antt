-- ===== src/Shop.antt =====
-- The services together: what an order that the order service accepts says about the tables of the
-- user service and of the product service, and what becomes of the events that it announces.
pub mod Placement
pub mod Events
pub mod Charging
mod ChargeScenario
mod Scenarios
