-- ===== src/Payments/Provider.antt =====
-- The two payment providers (payment-service/src/modules/payment/strategies).
pub mod Mock
pub mod Stripe
