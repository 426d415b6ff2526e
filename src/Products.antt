-- ===== src/Products.antt =====
-- The product service (product-service/src): its rows, and the cache that it keeps in front of them.
pub mod Entities
pub mod Service
pub mod Cache
pub mod Coherence
pub mod Reference
pub mod Refinement
pub mod Existence
pub mod Routes
pub mod Staleness
mod Scenarios
