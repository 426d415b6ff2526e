-- ===== src/Payments/Charge/Outcome.antt =====
-- What `charge` of payment-service/src/modules/payment/payments.service.ts leaves in the tables.
use ecommerce_microservices.Common.{
  true, ◌≡◌, refl, sym, ◌∙◌, inl, inr, none, some, [], ◌∷◌, ◌++◌, arith, ◌==◌, ◌||◌, eq_refl, find,
  find_sound, find_hit, find_last, ok, err, Result, Option-cases, get_or,
}
use ecommerce_microservices.Common.Int.{pos}
use ecommerce_microservices.Payments.Entities.{
  Payment, PaymentStatus, LedgerEntry, charge_entry, Outbox, OutboxEventType, payment_succeeded,
  payment_failed, PaymentProvider, PaymentError, ChargeResult, Store, Env, OutboxStatus,
}
use ecommerce_microservices.Payments.Tables.{outbox_row}
use ecommerce_microservices.Payments.Charge.{
  ChargeParams, charge, charge_new, new_payment, charge_ledger, charge_request, find_existing,
  charge_key, charge_event, charge_payload, charge_headers,
}

-- The event that announces a status.
abbrev pub Announces : PaymentStatus → OutboxEventType → Type 0
Announces PaymentStatus.processed t = t ≡ payment_succeeded
Announces _ t = t ≡ payment_failed

-- A finished charge of `s` has written one payment, one ledger entry with its amount, and one
-- pending event of the payment that Announces its status.
pub record IsRecorded (s s' : Store) (pay : Payment) : Type 0 where
  pub entry : LedgerEntry
  pub event : Outbox
  pub payments : s'.payments ≡ s.payments ++ pay ∷ []
  pub ledger : s'.ledger ≡ s.ledger ++ entry ∷ []
  pub outbox : s'.outbox ≡ s.outbox ++ event ∷ []
  pub same_payment : entry.payment_id ≡ pay.id
  pub same_amount : entry.amount ≡ pay.amount
  pub is_charge : entry.type ≡ charge_entry
  pub is_pending : event.status ≡ OutboxStatus.pending
  pub aggregate : event.aggregate_id ≡ pay.id
  pub announced : Announces pay.status event.event_type

-- What a charge that finds no earlier payment does to the tables.
abbrev pub ChargeOutcome : Store → Result PaymentError Payment × Store → Type 0
ChargeOutcome s (ok pay, s') = IsRecorded s s' pay
ChargeOutcome s (err _, s') = (s'.payments ≡ s.payments) × (s'.ledger ≡ s.ledger)

-- The row of the outbox that a charge appends.
abbrev pub event_of : Env → ChargeParams → ChargeResult → Payment → Outbox
event_of env params result pay =
    outbox_row env env.payment_id (charge_event result) (charge_payload pay result)
      (some (charge_headers env params))

module _ (provider : PaymentProvider) (env : Env) (params : ChargeParams) (s : Store) where
  pub charge_new-ok :
      (pay : Payment) (s' : Store)
      → charge_new provider env params s ≡ (ok pay, s')
      → IsRecorded s s' pay
  unfolding charge_new new_payment charge_ledger outbox_row charge_event
  charge_new-ok pay s' h =
      let result = provider.charge (charge_request params) in
      let amount = get_or params.amount (pos 0) in
      record {
        entry = charge_ledger env amount result;
        event = event_of env params result (new_payment env params amount result);
        payments = ground arith;
        ledger = ground arith;
        outbox = ground arith;
        same_payment = ground arith;
        same_amount = ground arith;
        is_charge = ground arith;
        is_pending = ground arith;
        aggregate = ground arith;
        announced = ground arith;
      }

  charge_new-err :
      (e : PaymentError) (s' : Store)
      → charge_new provider env params s ≡ (err e, s')
      → (s'.payments ≡ s.payments) × (s'.ledger ≡ s.ledger)
  unfolding charge_new
  charge_new-err e s' h = ground arith

  charge_new-ChargeOutcome :
      (m : Result PaymentError Payment × Store)
      → charge_new provider env params s ≡ m
      → ChargeOutcome s m
  charge_new-ChargeOutcome (ok pay, s') h = charge_new-ok pay s' h
  charge_new-ChargeOutcome (err e, s') h = charge_new-err e s' h

  pub charge_missing :
      find_existing env params s ≡ none
      → charge provider env params s ≡ charge_new provider env params s
  unfolding charge
  charge_missing h = rw (h, charge)

  pub charge_found :
      (p : Payment) → find_existing env params s ≡ some p → charge provider env params s ≡ (ok p, s)
  unfolding charge
  charge_found p h = rw (h, charge)

  -- A charge that finds no earlier payment returns a payment and has written all three rows, or
  -- throws and has left the payments and the ledger as they were.
  pub charge-ChargeOutcome :
      find_existing env params s ≡ none → ChargeOutcome s (charge provider env params s)
  charge-ChargeOutcome h =
      charge_new-ChargeOutcome (charge provider env params s) (sym (charge_missing h))

  charge_stored :
      (pay : Payment) (s' : Store)
      → charge provider env params s ≡ (ok pay, s')
      → (p : Payment) × (find (λ p. p.order_id == pay.order_id) s'.payments ≡ some p)
  unfolding find_existing
  charge_stored pay s' h = elim (Option-cases (find_existing env params s)) [
    | inl missing ↦
        let r = charge_new-ok pay s' (sym (charge_missing missing) ∙ h) in
        rw r.payments
          (find_last (λ p. p.order_id == pay.order_id) s.payments pay (eq_refl pay.order_id))
    | inr (p, found) ↦
        let same : ◌≡◌ {A = Result PaymentError Payment × Store} (ok p, s) (ok pay, s') =
          sym (charge_found p found) ∙ h in
        let same_store : s ≡ s' = cc in
        let same_pay : p ≡ pay = cc in
        rw (← same_store, ← same_pay)
          (find_hit _ (λ q. q.order_id == p.order_id) s.payments p found (eq_refl p.order_id))
  ]

-- After a charge that has returned, a charge for the order of its payment, whatever its key,
-- clock or provider, returns a payment and changes nothing: the provider is not asked again.
pub charge_again :
    (provider provider' : PaymentProvider) (env env' : Env) (params params' : ChargeParams)
    (s s' : Store) (pay : Payment)
    → charge provider env params s ≡ (ok pay, s')
    → params'.order_id ≡ pay.order_id
    → (p : Payment) × (charge provider' env' params' s' ≡ (ok p, s'))
unfolding find_existing
charge_again provider provider' env env' params params' s s' pay h same =
    let (p, found) = charge_stored provider env params s pay s' h in
    let order : (p.order_id == params'.order_id) ≡ true =
      rw same (find_sound (λ q. q.order_id == pay.order_id) s'.payments p found) in
    let (q, again) =
      find_hit (λ q. q.order_id == pay.order_id)
        (λ q. q.order_id == params'.order_id || q.idempotency_key == charge_key env' params')
        s'.payments p found (rw order refl) in
    (q, charge_found provider' env' params' s' q again)
