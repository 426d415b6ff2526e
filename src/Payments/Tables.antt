-- ===== src/Payments/Tables.antt =====
-- The writes of the payment service: the transaction and the saves that
-- payment-service/src/modules/payment/payments.service.ts makes, and the `append` of
-- payment-service/src/modules/outbox/outbox.service.ts.
use ecommerce_microservices.Common.{
  String, ◌||◌, not, Option, none, [], ◌∷◌, ◌++◌, if◌then◌else◌, any, update_where, ◌==◌, ok, err,
  Exec, gets, modify, throw_if, ◌>>=◌, ◌>>◌,
}
use ecommerce_microservices.Payments.Entities.{
  Payment, LedgerEntry, OutboxEventType, OutboxStatus, Payload, Headers, Outbox, Store,
  PaymentError, query_failed, Env,
}

abbrev pub Call : Type 0 → Type 0
Call A = Exec Store PaymentError A

-- `dataSource.transaction`: a throw in the body, or a commit that fails, takes back the writes that
-- went through the transaction's manager. The outbox is written through a repository of its own,
-- so its rows stay, and so does what the provider was asked.
roll_back : Store → Store → Store
roll_back before after = record after { payments = before.payments; ledger = before.ledger }

unfoldable pub transaction : {A : Type 0} → Env → Call A → Call A
unfolding roll_back
transaction env body s =
    let (r, s') = body s in
    elim r [
      | ok a ↦ if env.committed then (ok a, s') else (err query_failed, roll_back s s')
      | err e ↦ (err e, roll_back s s')
    ]

-- An insert fails on a value that a unique index holds already.
unfoldable pub save_payment : Env → Payment → Call (Unit {0})
save_payment env pay = do
  taken ← gets (λ s.
      any (λ p. p.order_id == pay.order_id || p.idempotency_key == pay.idempotency_key) s.payments)
  throw_if (not env.payment_saved || taken) query_failed
  modify (λ s. record s { payments = s.payments ++ pay ∷ [] })

unfoldable pub save_ledger : Env → LedgerEntry → Call (Unit {0})
save_ledger env entry = do
  throw_if (not env.ledger_saved) query_failed
  modify (λ s. record s { ledger = s.ledger ++ entry ∷ [] })

-- The row that `append` makes.
unfoldable pub outbox_row : Env → String → OutboxEventType → Payload → Option Headers → Outbox
outbox_row env aggregate_id event_type payload headers = record {
  id = env.outbox_id;
  aggregate_id = aggregate_id;
  event_type = event_type;
  event_id = env.event_id;
  payload = payload;
  headers = headers;
  status = OutboxStatus.pending;
  created_at = env.now;
  processed_at = none;
}

-- `OutboxService.append`
unfoldable pub append : Env → String → OutboxEventType → Payload → Option Headers → Call (Unit {0})
append env aggregate_id event_type payload headers = do
  throw_if (not env.outbox_saved) query_failed
  modify (λ s. record s {
    outbox = s.outbox ++ outbox_row env aggregate_id event_type payload headers ∷ [];
  })

-- The columns that a refund sets, and the time of the update.
unfoldable pub refund_columns : Env → Payment → Payment → Payment
refund_columns env new p = record p {
  refunded_amount = new.refunded_amount;
  status = new.status;
  updated_at = env.now;
}

-- `tm.update(Payment, payment.id, …)`
unfoldable pub update_payment : Env → String → Payment → Call (Unit {0})
unfolding refund_columns
update_payment env id new = do
  throw_if (not env.payment_saved) query_failed
  modify (λ s. record s {
    payments = update_where (λ p. p.id == id) (refund_columns env new) s.payments;
  })
