-- ===== src/Payments/Charge.antt =====
-- `charge` of payment-service/src/modules/payment/payments.service.ts.
pub mod Outcome
use ecommerce_microservices.Common.{
  String, ◌||◌, Option, none, some, [], ◌∷◌, ◌++◌, if◌then◌else◌, or_text, find, ◌==◌, ok, pure,
  modify, or_throw, ◌>>=◌, ◌>>◌,
}
use ecommerce_microservices.Common.Int.{ℤ, pos}
use ecommerce_microservices.Common.Text.{template, decimal}
use ecommerce_microservices.Payments.Entities.{
  Payment, PaymentStatus, LedgerEntry, charge_entry, OutboxEventType, Headers, payment_succeeded,
  payment_failed, Payload, of_charge, ChargeRequest, ChargeResult, PaymentProvider, Store,
  query_failed, Env, card,
}
use ecommerce_microservices.Payments.Tables.{Call, transaction, save_payment, save_ledger, append}

pub record ChargeParams : Type 0 where
  pub order_id : String
  pub customer_user_id : String
  pub amount : Option ℤ
  pub currency : Option String
  pub card_token : String
  pub idempotency_key : Option String
  pub correlation_id : Option String

unfoldable pub charge_key : Env → ChargeParams → String
charge_key env params =
    or_text params.idempotency_key
      (template ("pay_" ∷ params.order_id ∷ "_" ∷ decimal env.now ∷ []))

-- The lookup before a charge: a payment of the order, or one with the key.
unfoldable pub find_existing : Env → ChargeParams → Store → Option Payment
find_existing env params s =
    find (λ p. p.order_id == params.order_id || p.idempotency_key == charge_key env params)
      s.payments

unfoldable pub new_payment : Env → ChargeParams → ℤ → ChargeResult → Payment
new_payment env params amount result = record {
  id = env.payment_id;
  order_id = params.order_id;
  customer_user_id = params.customer_user_id;
  amount = amount;
  currency = or_text params.currency "USD";
  status = if result.success then PaymentStatus.processed else PaymentStatus.failed;
  method = card;
  provider = some result.provider;
  provider_transaction_id = some result.provider_transaction_id;
  idempotency_key = charge_key env params;
  refunded_amount = pos 0;
  created_at = env.now;
  updated_at = env.now;
}

unfoldable pub charge_ledger : Env → ℤ → ChargeResult → LedgerEntry
charge_ledger env amount result = record {
  id = env.ledger_id;
  payment_id = env.payment_id;
  type = charge_entry;
  amount = amount;
  reason = if result.success then none else some (or_text result.message "Charge failed");
  created_at = env.now;
}

unfoldable pub charge_payload : Payment → ChargeResult → Payload
charge_payload pay result = of_charge (record {
  payment_id = pay.id;
  order_id = pay.order_id;
  customer_user_id = pay.customer_user_id;
  amount = pay.amount;
  currency = pay.currency;
  status = pay.status;
  provider_transaction_id = result.provider_transaction_id;
  provider = result.provider;
})

unfoldable pub charge_event : ChargeResult → OutboxEventType
charge_event result = if result.success then payment_succeeded else payment_failed

unfoldable pub charge_headers : Env → ChargeParams → Headers
charge_headers env params = record { correlation_id = or_text params.correlation_id env.event_id }

-- The body of the transaction. An amount that is `undefined` is refused by its column.
unfoldable pub write_charge : Env → ChargeParams → ChargeResult → Call Payment
unfolding transaction save_payment save_ledger append
write_charge env params result = do
  amount ← or_throw params.amount query_failed
  let pay = new_payment env params amount result
  save_payment env pay
  save_ledger env (charge_ledger env amount result)
  append env env.payment_id (charge_event result) (charge_payload pay result)
      (some (charge_headers env params))
  pure pay

unfoldable pub charge_request : ChargeParams → ChargeRequest
charge_request params = record {
  amount = params.amount;
  currency = or_text params.currency "USD";
  card_token = params.card_token;
  idempotency_key = params.order_id;
}

module _ (provider : PaymentProvider) where
  -- What `charge` does when its lookup has found nothing.
  unfoldable pub charge_new : Env → ChargeParams → Call Payment
  unfolding transaction write_charge
  charge_new env params = do
    modify (λ s. record s { charges = s.charges ++ charge_request params ∷ [] })
    transaction env (write_charge env params (provider.charge (charge_request params)))

  unfoldable pub charge : Env → ChargeParams → Call Payment
  unfolding charge_new find_existing
  charge env params s = elim (find_existing env params s) [
    | some existing ↦ (ok existing, s)
    | none ↦ charge_new env params s
  ]
