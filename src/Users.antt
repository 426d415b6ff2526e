-- ===== src/Users.antt =====
-- The user service (user-service/src): accounts, their addresses, and the tokens it issues.
pub mod Entities
pub mod Accounts
pub mod Sessions
pub mod Addresses
pub mod Auth
pub mod Routes
pub mod Bodies
mod Scenarios
