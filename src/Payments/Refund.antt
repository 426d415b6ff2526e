-- ===== src/Payments/Refund.antt =====
-- `requestRefund` and `executeRefund` of
-- payment-service/src/modules/payment/payments.service.ts.
pub mod Guards
use ecommerce_microservices.Common.{
  String, Bool, true, false, not, Option, some, [], ◌∷◌, ◌++◌, if◌then◌else◌, get_or, or_text,
  truthy, is_some, find, ◌==◌, pure, gets, modify, throw_if, or_throw, ◌>>=◌, ◌>>◌,
}
use ecommerce_microservices.Common.Int.{ℤ, pos, ◌+ℤ◌, ◌-ℤ◌, ltb_ℤ, leb_ℤ}
use ecommerce_microservices.Common.Text.{template, decimal}
use ecommerce_microservices.Payments.Entities.{
  Payment, PaymentStatus, LedgerEntry, refund_entry, refund_issued, Payload, of_refund,
  RefundRequest, PaymentProvider, payment_not_found, not_refundable, amount_not_positive,
  exceeds_available, no_provider_transaction, refund_failed, Env,
}
use ecommerce_microservices.Payments.Tables.{Call, transaction, save_ledger, append, update_payment}

pub record RefundParams : Type 0 where
  pub payment_id : String
  pub amount : ℤ
  pub reason : String
  pub correlation_id : Option String

-- The two states from which `requestRefund` goes on.
unfoldable pub is_refundable : PaymentStatus → Bool
is_refundable PaymentStatus.processed = true
is_refundable PaymentStatus.partially_refunded = true
is_refundable _ = false

-- `executeRefund` as far as it reads: the row that all that follows works from.
unfoldable pub begin_refund : RefundParams → Call Payment
begin_refund params = do
  found ← gets (λ s. find (λ p. p.id == params.payment_id) s.payments)
  payment ← or_throw found (payment_not_found params.payment_id)
  throw_if (not (is_some (truthy payment.provider_transaction_id))) no_provider_transaction
  pure payment

unfoldable pub refund_request : Env → RefundParams → Payment → RefundRequest
refund_request env params payment = record {
  provider_transaction_id = get_or payment.provider_transaction_id "";
  amount = params.amount;
  idempotency_key = template ("refund_" ∷ payment.id ∷ "_" ∷ decimal env.now ∷ []);
}

-- The columns that a refund writes, from the row that it read before.
unfoldable pub refunded_payment : Payment → ℤ → Payment
refunded_payment payment amount =
    let refunded = payment.refunded_amount +ℤ amount in
    record payment {
      refunded_amount = refunded;
      status =
          if leb_ℤ payment.amount refunded
          then PaymentStatus.refunded
          else PaymentStatus.partially_refunded;
    }

unfoldable pub refund_ledger : Env → RefundParams → Payment → LedgerEntry
refund_ledger env params payment = record {
  id = env.ledger_id;
  payment_id = payment.id;
  type = refund_entry;
  amount = params.amount;
  reason = some params.reason;
  created_at = env.now;
}

unfoldable pub refund_payload : RefundParams → Payment → Payment → Payload
refund_payload params payment new = of_refund (record {
  payment_id = payment.id;
  order_id = payment.order_id;
  customer_user_id = payment.customer_user_id;
  refund_amount = params.amount;
  refunded_amount = new.refunded_amount;
  is_full_refund = leb_ℤ payment.amount new.refunded_amount;
  status = new.status;
  reason = params.reason;
  provider_transaction_id = get_or payment.provider_transaction_id "";
})

write_refund : Env → RefundParams → Payment → Call (Option Payment)
write_refund env params payment = do
  let new = refunded_payment payment params.amount
  update_payment env payment.id new
  save_ledger env (refund_ledger env params payment)
  append env payment.id refund_issued (refund_payload params payment new)
      (some (record { correlation_id = or_text params.correlation_id env.event_id }))
  gets (λ s. find (λ p. p.id == payment.id) s.payments)

-- The parameters that `requestRefund` passes on.
unfoldable pub request_params : String → ℤ → Option String → Option String → RefundParams
request_params payment_id amount reason correlation_id = record {
  payment_id = payment_id;
  amount = amount;
  reason = or_text reason "Customer requested refund";
  correlation_id = correlation_id;
}

module _ (provider : PaymentProvider) where
  -- The rest of `executeRefund`: the provider's call, and the writes.
  unfoldable pub finish_refund : Env → RefundParams → Payment → Call (Option Payment)
  unfolding transaction update_payment save_ledger append write_refund
  finish_refund env params payment = do
    let request = refund_request env params payment
    let result = provider.refund request
    modify (λ s. record s { refunds = s.refunds ++ request ∷ [] })
    throw_if (not result.success) (refund_failed (or_text result.message "Provider error"))
    transaction env (write_refund env params payment)

  unfoldable pub execute_refund : Env → RefundParams → Call (Option Payment)
  unfolding begin_refund finish_refund
  execute_refund env params = begin_refund params >>= finish_refund env params

  unfoldable pub request_refund :
      Env → String → Option ℤ → Option String → Option String → Call (Option Payment)
  unfolding execute_refund is_refundable
  request_refund env payment_id amount reason correlation_id = do
    found ← gets (λ s. find (λ p. p.id == payment_id) s.payments)
    payment ← or_throw found (payment_not_found payment_id)
    throw_if (not (is_refundable payment.status)) (not_refundable payment.status)
    let available = payment.amount -ℤ payment.refunded_amount
    let refund_amount = get_or amount available
    throw_if (leb_ℤ refund_amount (pos 0)) amount_not_positive
    throw_if (ltb_ℤ available refund_amount) (exceeds_available refund_amount available)
    execute_refund env (request_params payment_id refund_amount reason correlation_id)
