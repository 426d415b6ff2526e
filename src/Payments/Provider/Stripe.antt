-- ===== src/Payments/Provider/Stripe.antt =====
-- The provider that calls Stripe
-- (payment-service/src/modules/payment/strategies/stripe-payment-provider.strategy.ts). The client
-- library is a parameter: what it answers to a request, or how it throws.
use ecommerce_microservices.Common.{
  String, Bool, true, false, Option, none, some, List, [], ◌∷◌, if◌then◌else◌, includes, get_or,
  or_text, ◌==◌,
}
use ecommerce_microservices.Common.Int.{ℤ}
use ecommerce_microservices.Common.Text.{template}
use ecommerce_microservices.Payments.Entities.{RefundRequest, ChargeResult, PaymentProvider}

-- An intent to pay, in the smallest unit of the currency; an amount that is no number stays so.
pub record IntentRequest : Type 0 where
  pub amount : Option ℤ
  pub currency : String
  pub payment_method : String
  pub confirm : Bool
  pub idempotency_key : String

pub record PaymentIntent : Type 0 where
  pub id : String
  pub status : String

pub record StripeRefund : Type 0 where
  pub id : String
  pub status : String
  pub payment_intent : Option String
  pub failure_reason : Option String

-- A call of the client returns, or throws an error of the card or another.
pub data Answer (A : Type 0) : Type 0 where
  answer : A → Answer A
  card_error : String → Answer A
  other_error : Answer A

-- `to_lower` is JavaScript's `toLowerCase`.
pub record StripeClient : Type 0 where
  pub create_intent : IntentRequest → Answer PaymentIntent
  pub create_refund : RefundRequest → Answer StripeRefund
  pub to_lower : String → String

abbrev pub succeeded_statuses : List String
succeeded_statuses = "succeeded" ∷ "processing" ∷ []

abbrev result : Bool → String → Option String → ChargeResult
result success id message = record {
  success = success;
  provider_transaction_id = id;
  provider = "stripe";
  message = message;
}

read_intent : Answer PaymentIntent → ChargeResult
read_intent (answer intent) =
    if includes succeeded_statuses intent.status
    then result true intent.id none
    else result false intent.id
        (some (template ("Payment requires additional action (" ∷ intent.status ∷ ")" ∷ [])))
read_intent (card_error message) = result false "" (some message)
read_intent other_error = result false "" (some "Stripe charge failed")

read_refund : RefundRequest → Answer StripeRefund → ChargeResult
read_refund params (answer refund) =
    let id = get_or refund.payment_intent params.provider_transaction_id in
    if refund.status == "failed"
    then result false id (some (or_text refund.failure_reason "Stripe refund failed"))
    else result true id none
read_refund params (card_error message) = result false params.provider_transaction_id (some message)
read_refund params other_error =
    result false params.provider_transaction_id (some "Stripe refund failed")

-- Amounts are cents already, so `Math.round(amount * 100)` is the amount.
unfoldable pub stripe_provider : StripeClient → PaymentProvider
unfolding read_intent read_refund
stripe_provider stripe = record {
  charge = λ params. read_intent (
      stripe.create_intent (record {
        amount = params.amount;
        currency = stripe.to_lower params.currency;
        payment_method = params.card_token;
        confirm = true;
        idempotency_key = params.idempotency_key;
      }));
  refund = λ params. read_refund params (stripe.create_refund params);
}
