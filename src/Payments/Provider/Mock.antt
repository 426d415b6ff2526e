-- ===== src/Payments/Provider/Mock.antt =====
-- The provider for development, which always succeeds
-- (payment-service/src/modules/payment/strategies/mock-payment-provider.strategy.ts).
use ecommerce_microservices.Common.{String, true, none, [], ◌∷◌}
use ecommerce_microservices.Common.Text.{template}
use ecommerce_microservices.Payments.Entities.{PaymentProvider}

-- `id` is the identifier that the call makes.
unfoldable pub mock_provider : String → PaymentProvider
mock_provider id = record {
  charge = λ params. record {
    success = true;
    provider_transaction_id = template ("mock_txn_" ∷ id ∷ []);
    provider = "mock-provider";
    message = none;
  };
  refund = λ params. record {
    success = true;
    provider_transaction_id = params.provider_transaction_id;
    provider = "mock-provider";
    message = none;
  };
}
