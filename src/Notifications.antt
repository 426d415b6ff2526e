-- ===== src/Notifications.antt =====
-- The notification service (notification-service/src): its deliveries, the dispatchers that send
-- them, and the events that it turns into notifications.
pub mod Entities
pub mod Dispatcher
pub mod Service
pub mod Processor
pub mod Consumer
pub mod Routes
pub mod Consistency
pub mod Retry
pub mod Recipients
mod Scenarios
