-- ===== src/Payments/Handlers.antt =====
-- The handlers of the events that the payment service consumes, and its queries
-- (payment-service/src/modules/payment/payments.service.ts). The events are those of
-- payment-service/src/modules/kafka/kafka-consumer.service.ts.
use ecommerce_microservices.Common.{
  ℕ, ◌-◌, ◌*◌, String, Bool, true, false, Option, none, some, List, if◌then◌else◌, ltb, eqb, get_or,
  or_else, truthy, find, filter, take, drop, length, ◌==◌, pure, gets, ◌>>=◌,
}
use ecommerce_microservices.Common.Int.{ℤ, ◌-ℤ◌}
use ecommerce_microservices.Common.Sort.{order_by}
use ecommerce_microservices.Payments.Entities.{Payment, PaymentStatus, PaymentProvider, Env}
use ecommerce_microservices.Payments.Tables.{Call}
use ecommerce_microservices.Payments.Charge.{charge}
use ecommerce_microservices.Payments.Refund.{execute_refund}

-- The message may name its amount `amount` or `totalAmount`, or lack it.
pub record OrderCreatedEvent : Type 0 where
  pub order_id : String
  pub customer_user_id : String
  pub amount : Option ℤ
  pub total_amount : Option ℤ
  pub currency : Option String
  pub card_token : Option String
  pub idempotency_key : Option String

pub record RefundRequiredEvent : Type 0 where
  pub order_id : String
  pub payment_id : String
  pub amount : ℤ
  pub reason : String

pub record InventoryReservationFailedEvent : Type 0 where
  pub order_id : String
  pub payment_id : String

module _ (provider : PaymentProvider) (env : Env) (correlation_id : String) where
  unfoldable pub process_order_created : OrderCreatedEvent → Call (Unit {0})
  process_order_created event = do
    _ ← charge provider env (record {
      order_id = event.order_id;
      customer_user_id = event.customer_user_id;
      amount = or_else event.amount event.total_amount;
      currency = event.currency;
      card_token = get_or event.card_token "tok_mock_default";
      idempotency_key = event.idempotency_key;
      correlation_id = some correlation_id;
    })
    pure tt

  unfoldable pub process_refund_required : RefundRequiredEvent → Call (Unit {0})
  process_refund_required event = do
    _ ← execute_refund provider env (record {
      payment_id = event.payment_id;
      amount = event.amount;
      reason = event.reason;
      correlation_id = some correlation_id;
    })
    pure tt

  refund_rest : Option Payment → Call (Unit {0})
  refund_rest none = pure tt
  refund_rest (some payment) = do
    _ ← execute_refund provider env (record {
      payment_id = payment.id;
      amount = payment.amount -ℤ payment.refunded_amount;
      reason = "Inventory reservation failed — saga compensation";
      correlation_id = some correlation_id;
    })
    pure tt

  unfoldable pub process_inventory_reservation_failed :
      InventoryReservationFailedEvent → Call (Unit {0})
  unfolding refund_rest
  process_inventory_reservation_failed event = do
    found ← gets (λ s. find (λ p. p.order_id == event.order_id) s.payments)
    refund_rest found

unfoldable pub find_by_id : String → Call (Option Payment)
find_by_id id = gets (λ s. find (λ p. p.id == id) s.payments)

pub record PaymentQuery : Type 0 where
  pub order_id : Option String
  pub customer_user_id : Option String
  pub status : Option PaymentStatus
  pub page : Option ℕ
  pub limit : Option ℕ

-- `n || d`: a number is truthy if it is there and not 0.
or_number : Option ℕ → ℕ → ℕ
or_number none d = d
or_number (some n) d = if eqb n 0 then d else n

-- A filter on a column, if the query has a value for it.
abbrev filter_by : Option String → (Payment → String) → List Payment → List Payment
filter_by none column ps = ps
filter_by (some v) column ps = filter (λ p. column p == v) ps

same_status : PaymentStatus → PaymentStatus → Bool
same_status PaymentStatus.pending PaymentStatus.pending = true
same_status PaymentStatus.processed PaymentStatus.processed = true
same_status PaymentStatus.failed PaymentStatus.failed = true
same_status PaymentStatus.refunded PaymentStatus.refunded = true
same_status PaymentStatus.partially_refunded PaymentStatus.partially_refunded = true
same_status _ _ = false

filter_status : Option PaymentStatus → List Payment → List Payment
unfolding same_status
filter_status none ps = ps
filter_status (some status) ps = filter (λ p. same_status p.status status) ps

-- The rows of the query, all pages together: the latest first.
unfoldable pub matching_payments : PaymentQuery → List Payment → List Payment
unfolding filter_status
matching_payments query ps =
    order_by (λ p q. ltb q.created_at p.created_at)
      (filter_status query.status (
        filter_by (truthy query.customer_user_id) (λ p. p.customer_user_id)
          (filter_by (truthy query.order_id) (λ p. p.order_id) ps)))

unfoldable pub find_all : PaymentQuery → Call (List Payment × ℕ)
unfolding or_number matching_payments
find_all query = do
  rows ← gets (λ s. matching_payments query s.payments)
  let page = or_number query.page 1
  let limit = or_number query.limit 20
  pure (take limit (drop ((page - 1) * limit) rows), length rows)
