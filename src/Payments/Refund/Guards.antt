-- ===== src/Payments/Refund/Guards.antt =====
-- The guards of a refund and what it writes
-- (payment-service/src/modules/payment/payments.service.ts).
pub mod Outcome
use ecommerce_microservices.Common.{
  String, true, ◌≡◌, refl, sym, ◌∙◌, inl, inr, ◌⊎◌, Option, some, List, [], ◌∷◌, ◌++◌, arith, ◌==◌,
  eq_iff, eq_refl, find, find_sound, find-update_where, update_where, ok, err, Result, Option-cases,
  Bool-cases, get_or, or_text, subst, is_some, truthy,
}
use ecommerce_microservices.Common.Int.{ℤ, pos, ◌-ℤ◌, ◌≤ℤ◌, ltb_ℤ, leb_ℤ}
use ecommerce_microservices.Payments.Entities.{
  Payment, Outbox, PaymentProvider, PaymentError, payment_not_found, no_provider_transaction,
  not_refundable, amount_not_positive, exceeds_available, Store, Env, refund_issued, OutboxStatus,
}
use ecommerce_microservices.Payments.Tables.{refund_columns, outbox_row}
use ecommerce_microservices.Payments.Refund.{
  RefundParams, is_refundable, begin_refund, finish_refund, execute_refund, request_refund,
  request_params, refunded_payment, refund_ledger, refund_payload, refund_request,
}

-- A request for a refund that has passed all the guards: `x` is what is to be refunded.
pub record IsAllowed (id : String) (amount : Option ℤ) (s : Store) (x : ℤ) (payment : Payment)
    : Type 0 where
  pub found : find (λ p. p.id == id) s.payments ≡ some payment
  pub refundable : is_refundable payment.status ≡ true
  pub asked : x ≡ get_or amount (payment.amount -ℤ payment.refunded_amount)
  pub positive : pos 1 ≤ℤ x
  pub covered : x ≤ℤ payment.amount -ℤ payment.refunded_amount

module _ (provider : PaymentProvider) (env : Env) (id : String) (amount : Option ℤ)
    (reason correlation_id : Option String) (s : Store) where
  -- A request is refused and changes nothing, or it is allowed and is carried out.
  pub request_refund_cases :
      ((e : PaymentError) × (request_refund provider env id amount reason correlation_id s
          ≡ (err e, s)))
      ⊎ ((x : ℤ) × (payment : Payment) × IsAllowed id amount s x payment
          × (request_refund provider env id amount reason correlation_id s
              ≡ execute_refund provider env (request_params id x reason correlation_id) s))
  unfolding request_refund
  request_refund_cases = elim (Option-cases (find (λ p. p.id == id) s.payments)) [
    | inl missing ↦ inl (payment_not_found id, ground arith)
    | inr (payment, found) ↦
        let available = payment.amount -ℤ payment.refunded_amount in
        let x = get_or amount available in
        elim (Bool-cases (is_refundable payment.status)) [
          | inr not_now ↦ inl (not_refundable payment.status, ground arith)
          | inl refundable ↦ elim (Bool-cases (leb_ℤ x (pos 0))) [
            | inl none_left ↦ inl (amount_not_positive, ground arith)
            | inr positive ↦ elim (Bool-cases (ltb_ℤ available x)) [
              | inl too_much ↦ inl (exceeds_available x available, ground arith)
              | inr covered ↦ inr (
                x,
                payment,
                record {
                  found = found;
                  refundable = refundable;
                  asked = refl;
                  positive = ground arith;
                  covered = ground arith;
                },
                ground arith,
              )
            ]
          ]
        ]
  ]

-- A row that is found by an identifier is found by its own.
pub find_own :
    (id : String) (ps : List Payment) (p : Payment)
    → find (λ x. x.id == id) ps ≡ some p
    → find (λ x. x.id == p.id) ps ≡ some p
find_own id ps p h =
    let ids : p.id ≡ id = (eq_iff p.id id).0 (find_sound (λ x. x.id == id) ps p h) in
    subst (λ k. find (λ x. x.id == k) ps ≡ some p) (sym ids) h

-- The row after a refund of `x`.
abbrev pub after_refund : Env → Payment → ℤ → Payment
after_refund env payment x = refund_columns env (refunded_payment payment x) payment

-- A refund that has gone through: the row that it returns, the row's update, its ledger entry, and
-- its event, which is still to be sent.
pub record IsRefunded (env : Env) (params : RefundParams) (payment : Payment) (s s' : Store)
    (r : Option Payment) : Type 0 where
  pub event : Outbox
  pub returned : r ≡ some (after_refund env payment params.amount)
  pub payments :
      s'.payments
      ≡ update_where
          (λ p. p.id == payment.id)
          (refund_columns env (refunded_payment payment params.amount))
          s.payments
  pub ledger : s'.ledger ≡ s.ledger ++ refund_ledger env params payment ∷ []
  pub outbox : s'.outbox ≡ s.outbox ++ event ∷ []
  pub aggregate : event.aggregate_id ≡ payment.id
  pub issued : event.event_type ≡ refund_issued
  pub is_pending : event.status ≡ OutboxStatus.pending
  pub payload :
      event.payload ≡ refund_payload params payment (refunded_payment payment params.amount)
  pub requests : s'.refunds ≡ s.refunds ++ refund_request env params payment ∷ []

abbrev pub RefundOutcome :
    Env → RefundParams → Payment → Store → Result PaymentError (Option Payment) × Store → Type 0
RefundOutcome env params payment s (ok r, s') = IsRefunded env params payment s s' r
RefundOutcome env params payment s (err _, s') = (s'.payments ≡ s.payments) × (s'.ledger ≡ s.ledger)

-- The row that was updated is the one that is read back.
find_updated :
    (ps : List Payment) (p : Payment) (env : Env) (new : Payment)
    → find (λ q. q.id == p.id) ps ≡ some p
    → find (λ q. q.id == p.id) (update_where (λ q. q.id == p.id) (refund_columns env new) ps)
      ≡ some (refund_columns env new p)
unfolding refund_columns
find_updated ps p env new h = ground (
  arith,
  find-update_where (λ q. q.id == p.id) (λ q. q.id == p.id) (refund_columns env new) ps (λ q. refl),
  eq_refl p.id,
)

-- The row that a refund has read is found by its own identifier.
pub begin_refund-found :
    (params : RefundParams) (payment : Payment) (s : Store)
    → begin_refund params s ≡ (ok payment, s)
    → find (λ p. p.id == payment.id) s.payments ≡ some payment
unfolding begin_refund
begin_refund-found params payment s h = find_own params.payment_id s.payments payment (ground arith)

-- The row of the outbox that a refund appends.
abbrev refund_event : Env → RefundParams → Payment → Outbox
refund_event env params payment =
    outbox_row env payment.id refund_issued
      (refund_payload params payment (refunded_payment payment params.amount))
      (some (record { correlation_id = or_text params.correlation_id env.event_id }))

module _ (provider : PaymentProvider) (env : Env) (params : RefundParams) where
  module _ (payment : Payment) (s : Store)
      (known : find (λ p. p.id == payment.id) s.payments ≡ some payment) where
    finish_refund-ok :
        (r : Option Payment) (s' : Store)
        → finish_refund provider env params payment s ≡ (ok r, s')
        → IsRefunded env params payment s s' r
    unfolding finish_refund outbox_row
    finish_refund-ok r s' h =
        let read =
          find_updated s.payments payment env (refunded_payment payment params.amount) known in
        record {
          event = refund_event env params payment;
          returned = ground arith;
          payments = ground arith;
          ledger = ground arith;
          outbox = ground arith;
          aggregate = refl;
          issued = refl;
          is_pending = refl;
          payload = refl;
          requests = ground arith;
        }

    finish_refund-err :
        (e : PaymentError) (s' : Store)
        → finish_refund provider env params payment s ≡ (err e, s')
        → (s'.payments ≡ s.payments) × (s'.ledger ≡ s.ledger)
    unfolding finish_refund
    finish_refund-err e s' h = ground arith

    pub finish_refund-RefundOutcome :
        (m : Result PaymentError (Option Payment) × Store)
        → finish_refund provider env params payment s ≡ m
        → RefundOutcome env params payment s m
    finish_refund-RefundOutcome (ok r, s') h = finish_refund-ok r s' h
    finish_refund-RefundOutcome (err e, s') h = finish_refund-err e s' h

  pub execute_refund-found :
      (payment : Payment) (s : Store)
      → find (λ p. p.id == params.payment_id) s.payments ≡ some payment
      → is_some (truthy payment.provider_transaction_id) ≡ true
      → execute_refund provider env params s ≡ finish_refund provider env params payment s
  unfolding execute_refund
  execute_refund-found payment s found known = ground arith

  -- `executeRefund` throws at once, or goes on with the row that it has found.
  pub execute_refund_cases :
      (s : Store)
      → ((e : PaymentError) × (execute_refund provider env params s ≡ (err e, s)))
        ⊎ ((payment : Payment) × (find (λ p. p.id == params.payment_id) s.payments ≡ some payment)
            × (execute_refund provider env params s ≡ finish_refund provider env params payment s))
  unfolding execute_refund
  execute_refund_cases s = elim (Option-cases (find (λ p. p.id == params.payment_id) s.payments)) [
    | inl missing ↦ inl (payment_not_found params.payment_id, ground arith)
    | inr (payment, found) ↦ elim (Bool-cases (is_some (truthy payment.provider_transaction_id))) [
      | inl known ↦ inr (payment, found, ground arith)
      | inr unknown ↦ inl (no_provider_transaction, ground arith)
    ]
  ]

module _ (provider : PaymentProvider) (env : Env) (id : String) (amount : Option ℤ)
    (reason correlation_id : Option String) (s : Store) where
  -- What a request for a refund does.
  abbrev pub RequestOutcome : Result PaymentError (Option Payment) × Store → Type 0
  RequestOutcome (ok r, s') =
      (x : ℤ) × (payment : Payment) × IsAllowed id amount s x payment
      × IsRefunded env (request_params id x reason correlation_id) payment s s' r
  RequestOutcome (err _, s') = (s'.payments ≡ s.payments) × (s'.ledger ≡ s.ledger)

  carried_out :
      (x : ℤ) (payment : Payment)
      → IsAllowed id amount s x payment
      → (m : Result PaymentError (Option Payment) × Store)
      → RefundOutcome env (request_params id x reason correlation_id) payment s m
      → RequestOutcome m
  carried_out x payment a (ok r, s') h = (x, payment, a, h)
  carried_out x payment a (err e, s') h = h

  pub request_refund-RequestOutcome :
      RequestOutcome (request_refund provider env id amount reason correlation_id s)
  unfolding request_params
  request_refund-RequestOutcome =
      elim (request_refund_cases provider env id amount reason correlation_id s) [
        | inl (e, refused) ↦ rw refused (refl, refl)
        | inr (x, payment, a, same) ↦
            let params = request_params id x reason correlation_id in
            elim (execute_refund_cases provider env params s) [
              | inl (e, refused) ↦ rw (same ∙ refused) (refl, refl)
              | inr (payment', found, goes_on) ↦
                  let same_row : payment' ≡ payment = cc (a.found) in
                  rw (same ∙ goes_on, same_row)
                    (carried_out x payment a (finish_refund provider env params payment s) (
                      finish_refund-RefundOutcome provider env params payment s
                        (find_own id s.payments payment a.found) _ refl))
            ]
      ]
