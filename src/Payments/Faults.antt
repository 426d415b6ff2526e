-- ===== src/Payments/Faults.antt =====
-- Refunds that come by event, two refunds that run at once, and a charge whose commit fails
-- (payment-service/src/modules/payment/payments.service.ts).
use ecommerce_microservices.Common.{
  String, true, false, ◌≡◌, refl, ap, ◌∙◌, none, some, [], ◌∷◌, ◌++◌, arith, ◌==◌, ◌||◌, eq_refl,
  find, find-update_where, any, any-none, ok, err, is_some, truthy, drop_state,
}
use ecommerce_microservices.Common.Int.{ℤ, ◌+ℤ◌}
use ecommerce_microservices.Payments.Entities.{
  Payment, Outbox, LedgerEntry, refund_entry, PaymentProvider, RefundRequest, ChargeResult,
  query_failed, Store, Env,
}
use ecommerce_microservices.Payments.Tables.{refund_columns, outbox_row}
use ecommerce_microservices.Payments.Charge.{
  ChargeParams, charge, find_existing, new_payment, charge_request, charge_key,
}
use ecommerce_microservices.Payments.Charge.Outcome.{event_of}
use ecommerce_microservices.Payments.Refund.{
  RefundParams, begin_refund, finish_refund, refunded_payment, refund_request, refund_ledger,
}
use ecommerce_microservices.Payments.Refund.Guards.{execute_refund-found, begin_refund-found}
use ecommerce_microservices.Payments.Handlers.{RefundRequiredEvent, process_refund_required}

-- Every write goes through.
pub record IsHealthy (env : Env) : Type 0 where
  pub payment_saved : env.payment_saved ≡ true
  pub ledger_saved : env.ledger_saved ≡ true
  pub outbox_saved : env.outbox_saved ≡ true
  pub committed : env.committed ≡ true

-- The provider carries every refund out.
abbrev pub Refunds : PaymentProvider → Type 0
Refunds provider = (request : RefundRequest) → (provider.refund request).success ≡ true

module _ (provider : PaymentProvider) (env : Env) (healthy : IsHealthy env)
    (works : Refunds provider) where
  -- The row that `finish_refund` has updated, looked up by any identifier that finds it.
  finished :
      (params : RefundParams) (payment row : Payment) (id : String) (s : Store)
      → find (λ p. p.id == id) s.payments ≡ some row
      → row.id ≡ payment.id
      → find (λ p. p.id == id) (finish_refund provider env params payment s).1.payments
        ≡ some (refund_columns env (refunded_payment payment params.amount) row)
  unfolding finish_refund refund_columns
  finished params payment row id s found same = ground (
    arith,
    healthy,
    works (refund_request env params payment),
    find-update_where (λ p. p.id == id) (λ p. p.id == payment.id)
        (refund_columns env (refunded_payment payment params.amount)) s.payments (λ p. refl),
    eq_refl payment.id,
  )

  asked :
      (params : RefundParams) (payment : Payment) (s : Store)
      → (finish_refund provider env params payment s).1.refunds
        ≡ s.refunds ++ refund_request env params payment ∷ []
  unfolding finish_refund
  asked params payment s = ground (arith, healthy, works (refund_request env params payment))

  -- An event that requires a refund is carried out in full, whatever the payment's status and
  -- however much is left: the refunded amount grows by the amount of the event. The payment is
  -- found and has an identifier of the provider's that is not empty, the provider carries every
  -- refund out, and all writes to the database go through.
  pub refund_required_unbounded :
      (correlation_id : String) (event : RefundRequiredEvent) (s : Store) (payment : Payment)
      → find (λ p. p.id == event.payment_id) s.payments ≡ some payment
      → is_some (truthy payment.provider_transaction_id) ≡ true
      → (p : Payment) × (find
            (λ q. q.id == event.payment_id)
            (process_refund_required provider env correlation_id event s).1.payments
          ≡ some p)
        × (p.refunded_amount ≡ payment.refunded_amount +ℤ event.amount)
  unfolding process_refund_required refund_columns refunded_payment
  refund_required_unbounded correlation_id event s payment found known =
      let params : RefundParams = record {
        payment_id = event.payment_id;
        amount = event.amount;
        reason = event.reason;
        correlation_id = some correlation_id;
      } in
      (
        refund_columns env (refunded_payment payment event.amount) payment,
        rw (drop_state, execute_refund-found provider env params payment s found known)
            (finished params payment payment event.payment_id s found refl),
        refl,
      )

  -- The entry of the ledger that a refund writes.
  entered :
      (params : RefundParams) (payment : Payment) (s : Store)
      → (finish_refund provider env params payment s).1.ledger
        ≡ s.ledger ++ refund_ledger env params payment ∷ []
  unfolding finish_refund
  entered params payment s = ground (arith, healthy, works (refund_request env params payment))

-- An entry of the ledger for a refund of the payment.
abbrev pub IsRefundOf : Payment → ℤ → LedgerEntry → Type 0
IsRefundOf payment amount entry =
    (entry.payment_id ≡ payment.id) × (entry.type ≡ refund_entry) × (entry.amount ≡ amount)

-- Two refunds that have read the same row before either writes: the provider is asked for both
-- amounts and the ledger has an entry of each, and the refunded amount of the row has grown by the
-- second alone. The row is found and has an identifier of the provider's, the provider carries every
-- refund out, and all writes to the database go through.
pub concurrent_refunds_lose :
    (provider : PaymentProvider) (env env' : Env) (a b : RefundParams) (s : Store)
    (payment : Payment)
    → IsHealthy env
    → IsHealthy env'
    → Refunds provider
    → begin_refund a s ≡ (ok payment, s)
    → begin_refund b s ≡ (ok payment, s)
    → let s₁ = (finish_refund provider env a payment s).1 in
      let s₂ = (finish_refund provider env' b payment s₁).1 in
      ((first : RefundRequest) × (second : RefundRequest) × (s₂.refunds
          ≡ (s.refunds ++ first ∷ []) ++ second ∷ [])
        × (first.amount ≡ a.amount)
        × (second.amount ≡ b.amount))
      × ((first : LedgerEntry) × (second : LedgerEntry) × (s₂.ledger
            ≡ (s.ledger ++ first ∷ []) ++ second ∷ [])
          × IsRefundOf payment a.amount first
          × IsRefundOf payment b.amount second)
      × (p : Payment) × (find (λ q. q.id == payment.id) s₂.payments ≡ some p)
      × (p.refunded_amount ≡ payment.refunded_amount +ℤ b.amount)
unfolding refund_columns refunded_payment refund_request refund_ledger
concurrent_refunds_lose provider env env' a b s payment healthy healthy' works read_a read_b =
    let s₁ = (finish_refund provider env a payment s).1 in
    let own : find (λ q. q.id == payment.id) s.payments ≡ some payment =
      begin_refund-found a payment s read_a in
    (
      (
        refund_request env a payment,
        refund_request env' b payment,
        asked provider env' healthy' works b payment s₁
            ∙ ap (λ l. l ++ refund_request env' b payment ∷ [])
                (asked provider env healthy works a payment s),
        refl,
        refl,
      ),
      (
        refund_ledger env a payment,
        refund_ledger env' b payment,
        entered provider env' healthy' works b payment s₁
            ∙ ap (λ l. l ++ refund_ledger env' b payment ∷ [])
                (entered provider env healthy works a payment s),
        (refl, refl, refl),
        (refl, refl, refl),
      ),
      refund_columns env' (refunded_payment payment b.amount)
          (refund_columns env (refunded_payment payment a.amount) payment),
      finished provider env' healthy' works b payment _ payment.id s₁
          (finished provider env healthy works a payment payment payment.id s own refl) refl,
      refl,
    )

-- If the commit of a charge fails after its writes, the payment is taken back and its event is not:
-- a pending event announces a payment that is not in the table.
pub charge_orphan_event :
    (provider : PaymentProvider) (env : Env) (params : ChargeParams) (s : Store) (amount : ℤ)
    → find_existing env params s ≡ none
    → params.amount ≡ some amount
    → env.payment_saved ≡ true
    → env.ledger_saved ≡ true
    → env.outbox_saved ≡ true
    → env.committed ≡ false
    → let (r, s') = charge provider env params s in
      (r ≡ err query_failed)
      × (s'.payments ≡ s.payments)
      × (event : Outbox) × (s'.outbox ≡ s.outbox ++ event ∷ [])
      × (event.aggregate_id ≡ env.payment_id)
unfolding charge find_existing new_payment outbox_row
charge_orphan_event provider env params s amount missing known p l o c = (
  ground (arith, free),
  ground (arith, free),
  event_of env params result (new_payment env params amount result),
  ground (arith, free),
  refl,
)
  where
    result : ChargeResult
    result = provider.charge (charge_request params)

    free :
        any
          (λ p. p.order_id == params.order_id || p.idempotency_key == charge_key env params)
          s.payments
        ≡ false
    free = any-none _ s.payments missing
