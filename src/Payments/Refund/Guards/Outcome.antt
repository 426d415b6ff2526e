-- ===== src/Payments/Refund/Guards/Outcome.antt =====
-- What `requestRefund` of payment-service/src/modules/payment/payments.service.ts does, stated without
-- its own tests and rows.
use ecommerce_microservices.Common.{
  String, true, ◌≡◌, refl, inl, inr, ◌⊎◌, Option, some, [], ◌∷◌, ◌++◌, arith, ◌==◌, find,
  update_where, ok, err, Result, get_or, or_text, false≢true,
}
use ecommerce_microservices.Common.Int.{ℤ, pos, ◌+ℤ◌, ◌-ℤ◌, ◌≤ℤ◌, leb_ℤ}
use ecommerce_microservices.Payments.Entities.{
  Payment, PaymentStatus, LedgerEntry, refund_entry, Outbox, OutboxStatus, refund_issued, of_refund,
  RefundPayload, RefundRequest, PaymentProvider, PaymentError, Store, Env,
}
use ecommerce_microservices.Payments.Tables.{refund_columns}
use ecommerce_microservices.Payments.Refund.{
  is_refundable, request_refund, request_params, refunded_payment, refund_ledger, refund_payload,
  refund_request,
}
use ecommerce_microservices.Payments.Refund.Guards.{
  IsRefunded, RequestOutcome, request_refund-RequestOutcome, after_refund,
}

-- A state with something left to refund.
abbrev pub IsOpen : PaymentStatus → Type 0
IsOpen status = (status ≡ PaymentStatus.processed) ⊎ (status ≡ PaymentStatus.partially_refunded)

-- The payment that was asked for may be refunded by `x`, the amount that was asked for or all that
-- is left.
pub record IsGranted (id : String) (amount : Option ℤ) (s : Store) (x : ℤ) (payment : Payment)
    : Type 0 where
  pub found : find (λ p. p.id == id) s.payments ≡ some payment
  pub open_ : IsOpen payment.status
  pub asked : x ≡ get_or amount (payment.amount -ℤ payment.refunded_amount)
  pub positive : pos 1 ≤ℤ x
  pub covered : x ≤ℤ payment.amount -ℤ payment.refunded_amount

-- A row of a payment with the three columns that a refund writes.
abbrev pub with_columns : Env → Payment → Payment → Payment
with_columns env row p = record p {
  refunded_amount = row.refunded_amount;
  status = row.status;
  updated_at = env.now;
}

-- The payment was refunded by `x`, for a reason.
pub record IsRepaid (env : Env) (payment : Payment) (x : ℤ) (reason : String) (s s' : Store)
    (r : Option Payment) : Type 0 where
  pub row : Payment
  pub entry : LedgerEntry
  pub event : Outbox
  pub told : RefundPayload
  pub request : RefundRequest
  pub returned : r ≡ some row
  pub kept : row ≡ with_columns env row payment
  pub grown : row.refunded_amount ≡ payment.refunded_amount +ℤ x
  pub full : payment.amount ≤ℤ row.refunded_amount → row.status ≡ PaymentStatus.refunded
  pub partial :
      ¬ (payment.amount ≤ℤ row.refunded_amount) → row.status ≡ PaymentStatus.partially_refunded
  pub payments :
      s'.payments ≡ update_where (λ p. p.id == payment.id) (with_columns env row) s.payments
  pub ledger : s'.ledger ≡ s.ledger ++ entry ∷ []
  pub entered :
      (entry.payment_id ≡ payment.id)
      × (entry.type ≡ refund_entry)
      × (entry.amount ≡ x)
      × (entry.reason ≡ some reason)
  pub outbox : s'.outbox ≡ s.outbox ++ event ∷ []
  pub announced :
      (event.aggregate_id ≡ payment.id)
      × (event.event_type ≡ refund_issued)
      × (event.status ≡ OutboxStatus.pending)
      × (event.payload ≡ of_refund told)
  pub truthful :
      (told.payment_id ≡ payment.id)
      × (told.order_id ≡ payment.order_id)
      × (told.refund_amount ≡ x)
      × (told.refunded_amount ≡ row.refunded_amount)
      × (told.status ≡ row.status)
      × (told.reason ≡ reason)
  pub requests : s'.refunds ≡ s.refunds ++ request ∷ []
  pub requested : request.amount ≡ x

is_refundable-IsOpen : (status : PaymentStatus) → is_refundable status ≡ true → IsOpen status
unfolding is_refundable
is_refundable-IsOpen PaymentStatus.pending h = absurd (false≢true h)
is_refundable-IsOpen PaymentStatus.processed h = inl refl
is_refundable-IsOpen PaymentStatus.failed h = absurd (false≢true h)
is_refundable-IsOpen PaymentStatus.refunded h = absurd (false≢true h)
is_refundable-IsOpen PaymentStatus.partially_refunded h = inr refl

refunded_payment-status :
    (payment : Payment) (x : ℤ)
    → let new = refunded_payment payment x in
      (payment.amount ≤ℤ new.refunded_amount → new.status ≡ PaymentStatus.refunded)
      × (¬ (payment.amount ≤ℤ new.refunded_amount) → new.status ≡ PaymentStatus.partially_refunded)
unfolding refunded_payment
refunded_payment-status payment x = (λ h. ground arith, λ h. ground arith)

repaid :
    (env : Env) (id : String) (reason correlation_id : Option String) (payment : Payment) (x : ℤ)
    (s s' : Store) (r : Option Payment)
    → IsRefunded env (request_params id x reason correlation_id) payment s s' r
    → IsRepaid env payment x (or_text reason "Customer requested refund") s s' r
unfolding request_params refunded_payment refund_columns refund_ledger refund_payload refund_request
repaid env id reason correlation_id payment x s s' r done =
    let (full, partial) = refunded_payment-status payment x in
    record {
      row = after_refund env payment x;
      entry = refund_ledger env (request_params id x reason correlation_id) payment;
      event = done.event;
      told = record {
        payment_id = payment.id;
        order_id = payment.order_id;
        customer_user_id = payment.customer_user_id;
        refund_amount = x;
        refunded_amount = (refunded_payment payment x).refunded_amount;
        is_full_refund = leb_ℤ payment.amount (refunded_payment payment x).refunded_amount;
        status = (refunded_payment payment x).status;
        reason = or_text reason "Customer requested refund";
        provider_transaction_id = get_or payment.provider_transaction_id "";
      };
      request = refund_request env (request_params id x reason correlation_id) payment;
      returned = done.returned;
      kept = refl;
      grown = refl;
      full = full;
      partial = partial;
      payments = done.payments;
      ledger = done.ledger;
      entered = (refl, refl, refl, refl);
      outbox = done.outbox;
      announced = (done.aggregate, done.issued, done.is_pending, done.payload);
      truthful = (refl, refl, refl, refl, refl, refl);
      requests = done.requests;
      requested = refl;
    }

module _ (provider : PaymentProvider) (env : Env) (id : String) (amount : Option ℤ)
    (reason correlation_id : Option String) (s : Store) where
  -- A request that returns has been granted and carried out; one that throws has left the payments
  -- and the ledger.
  abbrev pub Outcome : Result PaymentError (Option Payment) × Store → Type 0
  Outcome (ok r, s') =
      (x : ℤ) × (payment : Payment) × IsGranted id amount s x payment
      × IsRepaid env payment x (or_text reason "Customer requested refund") s s' r
  Outcome (err _, s') = (s'.payments ≡ s.payments) × (s'.ledger ≡ s.ledger)

  to_outcome :
      (m : Result PaymentError (Option Payment) × Store)
      → RequestOutcome provider env id amount reason correlation_id s m
      → Outcome m
  to_outcome (ok r, s') (x, payment, a, done) = (
    x,
    payment,
    record {
      found = a.found;
      open_ = is_refundable-IsOpen payment.status a.refundable;
      asked = a.asked;
      positive = a.positive;
      covered = a.covered;
    },
    repaid env id reason correlation_id payment x s s' r done,
  )
  to_outcome (err e, s') h = h

  -- A request for a refund that returns has found a payment that is processed or partially refunded,
  -- and has refunded what was asked for, or all that is left: a positive amount of at most what is
  -- left. The refunded amount of the payment has grown by it, and the payment is refunded if that
  -- reaches the payment's amount and partially refunded if not; the provider was asked for it, the
  -- ledger has one more refund entry of it, and one pending event tells of it. A request that throws
  -- has left the payments and the ledger as they were.
  pub request_refund-Outcome :
      Outcome (request_refund provider env id amount reason correlation_id s)
  request_refund-Outcome =
      to_outcome (request_refund provider env id amount reason correlation_id s)
        (request_refund-RequestOutcome provider env id amount reason correlation_id s)
