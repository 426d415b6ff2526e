-- ===== src/Payments/Scenarios.antt =====
-- A payment of ten dollars that is charged and refunded, and a few requests about it: the runs at
-- which the theorems on the payment service are applied.
use ecommerce_microservices.Common.{
  ℕ, Bool, true, ◌≡◌, refl, none, some, [], ◌∷◌, ◌++◌, arith, ok, find, ◌==◌, is_some, truthy,
}
use ecommerce_microservices.Common.Text.{template}
use ecommerce_microservices.Common.Int.{pos, ◌+ℤ◌, ◌≤ℤ◌}
use ecommerce_microservices.Payments.Entities.{
  RefundRequest, LedgerEntry, Payment, PaymentProvider, Store, Env,
}
use ecommerce_microservices.Payments.Provider.Mock.{mock_provider}
use ecommerce_microservices.Payments.Tables.{transaction, save_payment, save_ledger, append}
use ecommerce_microservices.Payments.Charge.{
  ChargeParams, charge_request, charge, charge_new, new_payment, find_existing, write_charge,
}
use ecommerce_microservices.Payments.Charge.Outcome.{
  ChargeOutcome, charge-ChargeOutcome, charge_again,
}
use ecommerce_microservices.Payments.Refund.{
  RefundParams, begin_refund, finish_refund, request_refund,
}
use ecommerce_microservices.Payments.Refund.Guards.Outcome.{Outcome, request_refund-Outcome}
use ecommerce_microservices.Payments.Ledger.{total, is_charge, is_refund}
use ecommerce_microservices.Payments.Histories.{
  Reach, here, next, charged, empty, refunds-le-charges,
}
use ecommerce_microservices.Payments.Handlers.{process_refund_required}
use ecommerce_microservices.Payments.Faults.{
  IsHealthy, Refunds, IsRefundOf, refund_required_unbounded, concurrent_refunds_lose,
}

abbrev at : ℕ → Bool → Env
at now committed = record {
  now = now;
  payment_id = "pay";
  event_id = "event";
  ledger_id = "entry";
  outbox_id = "row";
  payment_saved = true;
  ledger_saved = true;
  outbox_saved = true;
  committed = committed;
}

abbrev mock : PaymentProvider
mock = mock_provider "1"

abbrev ten : ChargeParams
ten = record {
  order_id = "order";
  customer_user_id = "customer";
  amount = some (pos 1000);
  currency = none;
  card_token = "token";
  idempotency_key = some "key";
  correlation_id = none;
}

abbrev paid : Store
paid = (charge mock (at 1 true) ten empty).1

abbrev payment : Payment
payment = new_payment (at 1 true) ten (pos 1000) (
    mock.charge (record {
      amount = some (pos 1000);
      currency = "USD";
      card_token = "token";
      idempotency_key = "key";
    }))

paid_ok : charge mock (at 1 true) ten empty ≡ (ok payment, paid)
unfolding charge charge_new new_payment find_existing transaction save_payment save_ledger append
    write_charge charge_request mock_provider template
paid_ok = refl

paid_found : find (λ p. p.id == "pay") paid.payments ≡ some payment
unfolding charge charge_new new_payment find_existing transaction save_payment save_ledger append
    write_charge charge_request mock_provider template
paid_found = refl

history : Reach empty paid
history = next here (charged mock (at 1 true) ten (tt, tt) (omega arith))

charge_again_example :
    (p : Payment) × (charge mock (at 9 true) (record ten { idempotency_key = none }) paid
      ≡ (ok p, paid))
unfolding new_payment
charge_again_example =
    charge_again mock mock (at 1 true) (at 9 true) ten (record ten { idempotency_key = none }) empty
      paid payment paid_ok refl

charge-ChargeOutcome_example : ChargeOutcome empty (charge mock (at 1 true) ten empty)
unfolding find_existing
charge-ChargeOutcome_example = charge-ChargeOutcome mock (at 1 true) ten empty refl

refunds-le-charges_example :
    total is_refund payment.id paid.ledger ≤ℤ total is_charge payment.id paid.ledger
refunds-le-charges_example = refunds-le-charges paid "pay" payment history paid_found

request_refund-Outcome_example :
    Outcome mock
      (at 2 true)
      "pay"
      (some (pos 400))
      none
      none
      paid
      (request_refund mock (at 2 true) "pay" (some (pos 400)) none none paid)
request_refund-Outcome_example =
    request_refund-Outcome mock (at 2 true) "pay" (some (pos 400)) none none paid

abbrev refund_of : ℕ → RefundParams
refund_of n = record {
  payment_id = "pay";
  amount = pos n;
  reason = "reason";
  correlation_id = none;
}

later-IsHealthy : IsHealthy (at 3 true)
later-IsHealthy = record {
  payment_saved = refl;
  ledger_saved = refl;
  outbox_saved = refl;
  committed = refl;
}

healthy : IsHealthy (at 2 true)
healthy = record {
  payment_saved = refl;
  ledger_saved = refl;
  outbox_saved = refl;
  committed = refl;
}

works : Refunds mock
unfolding mock_provider
works request = refl

has_transaction : is_some (truthy payment.provider_transaction_id) ≡ true
unfolding new_payment mock_provider template
has_transaction = refl

refund_required_example :
    (p : Payment) × (find
        (λ q. q.id == "pay")
        (process_refund_required mock
          (at 2 true)
          "c"
          (record { order_id = "order"; payment_id = "pay"; amount = pos 5000; reason = "" })
          paid).1.payments
      ≡ some p)
    × (p.refunded_amount ≡ payment.refunded_amount +ℤ pos 5000)
refund_required_example =
    refund_required_unbounded mock (at 2 true) healthy works "c"
      (record { order_id = "order"; payment_id = "pay"; amount = pos 5000; reason = "" }) paid
      payment paid_found has_transaction

begun : (n : ℕ) → begin_refund (refund_of n) paid ≡ (ok payment, paid)
unfolding begin_refund charge charge_new new_payment find_existing transaction save_payment
    save_ledger append write_charge charge_request mock_provider template
begun n = refl

concurrent_refunds_example :
    let s₁ = (finish_refund mock (at 2 true) (refund_of 300) payment paid).1 in
    let s₂ = (finish_refund mock (at 3 true) (refund_of 200) payment s₁).1 in
    ((first : RefundRequest) × (second : RefundRequest) × (s₂.refunds
        ≡ (paid.refunds ++ first ∷ []) ++ second ∷ [])
      × (first.amount ≡ pos 300)
      × (second.amount ≡ pos 200))
    × ((first : LedgerEntry) × (second : LedgerEntry) × (s₂.ledger
          ≡ (paid.ledger ++ first ∷ []) ++ second ∷ [])
        × IsRefundOf payment (pos 300) first
        × IsRefundOf payment (pos 200) second)
    × (p : Payment) × (find (λ q. q.id == payment.id) s₂.payments ≡ some p)
    × (p.refunded_amount ≡ payment.refunded_amount +ℤ pos 200)
concurrent_refunds_example =
    concurrent_refunds_lose mock (at 2 true) (at 3 true) (refund_of 300) (refund_of 200) paid
      payment healthy later-IsHealthy works (begun 300) (begun 200)
