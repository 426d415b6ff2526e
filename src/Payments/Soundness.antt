-- ===== src/Payments/Soundness.antt =====
-- The tables of payments and of the ledger after each operation of
-- payment-service/src/modules/payment/payments.service.ts: the amounts of every payment against its
-- ledger entries.
use ecommerce_microservices.Common.{
  String, true, ◌≡◌, refl, inl, inr, Option, none, some, List, [], ◌∷◌, arith, ◌==◌, find,
  update_where, ok, err, Result, Option-cases, Bool-cases, get_or, All, All-append, All-find,
  eq_refl, find_hit, find_sound, drop_state,
}
use ecommerce_microservices.Common.Int.{ℤ, pos, ◌-ℤ◌, ◌≤ℤ◌, int_laws}
use ecommerce_microservices.Payments.Entities.{
  Payment, LedgerEntry, PaymentProvider, PaymentError, Store, Env,
}
use ecommerce_microservices.Payments.Tables.{refund_columns}
use ecommerce_microservices.Payments.Charge.{ChargeParams, charge, charge_request, new_payment}
use ecommerce_microservices.Payments.Refund.{
  RefundParams, execute_refund, finish_refund, request_refund, refunded_payment, request_params,
}
use ecommerce_microservices.Payments.Refund.Guards.{
  execute_refund_cases, request_refund_cases, finish_refund-RefundOutcome, RefundOutcome, find_own,
}
use ecommerce_microservices.Payments.Ledger.{
  Balances, IsBalanced, IsFresh, charge-Balances, execute_refund-Balances, same_refunded,
  same_amount,
}
use ecommerce_microservices.Payments.Handlers.{
  InventoryReservationFailedEvent, process_inventory_reservation_failed,
}

-- Nothing negative has been refunded, and no more than the amount.
abbrev pub IsWithin : Payment → Type 0
IsWithin p = (pos 0 ≤ℤ p.refunded_amount) × (p.refunded_amount ≤ℤ p.amount)

pub record IsSound (s : Store) : Type 0 where
  pub balanced : Balances s
  pub within : All IsWithin s.payments

abbrev pub IsNonNegative : Option ℤ → Type 0
IsNonNegative none = Unit
IsNonNegative (some a) = pos 0 ≤ℤ a

-- A refund of at most what is left keeps the rows within their amounts.
update-IsWithin :
    (env : Env) (es : List LedgerEntry) (payment : Payment) (x : ℤ) (ps : List Payment)
    → IsBalanced es payment
    → IsWithin payment
    → pos 0 ≤ℤ x
    → x ≤ℤ payment.amount -ℤ payment.refunded_amount
    → All (IsBalanced es) ps
    → All IsWithin ps
    → All IsWithin (
        update_where (λ p. p.id == payment.id) (refund_columns env (refunded_payment payment x)) ps)
unfolding refund_columns refunded_payment
update-IsWithin env es payment x [] known within lo hi b w = tt
update-IsWithin env es payment x (p ∷ ps) known within lo hi b w = (
  elim (Bool-cases (p.id == payment.id)) [
    | inl same ↦
        rw (same, update_where) (rw (← same_amount es p payment same b.0 known) (omega int_laws))
    | inr other ↦ rw (other, update_where) w.0
  ],
  update-IsWithin env es payment x ps known within lo hi b.1 w.1,
)

module _ (provider : PaymentProvider) (env : Env) where
  refund-IsWithin :
      (params : RefundParams) (payment : Payment) (s : Store)
      → find (λ p. p.id == payment.id) s.payments ≡ some payment
      → pos 0 ≤ℤ params.amount
      → params.amount ≤ℤ payment.amount -ℤ payment.refunded_amount
      → IsSound s
      → (m : Result PaymentError (Option Payment) × Store) → RefundOutcome env params payment s m
      → All IsWithin m.1.payments
  refund-IsWithin params payment s found lo hi v (ok r, s') h = rw h.payments (
      update-IsWithin env s.ledger payment params.amount s.payments
        (All-find (IsBalanced s.ledger) (λ p. p.id == payment.id) s.payments payment v.balanced
          found)
        (All-find IsWithin (λ p. p.id == payment.id) s.payments payment v.within found) lo hi
        v.balanced v.within)
  refund-IsWithin params payment s found lo hi v (err e, s') h = rw h.0 v.within

  -- `executeRefund` of at most what is left of the row that it finds.
  execute_refund-IsSound :
      (params : RefundParams) (payment : Payment) (s : Store)
      → find (λ p. p.id == params.payment_id) s.payments ≡ some payment
      → pos 0 ≤ℤ params.amount
      → params.amount ≤ℤ payment.amount -ℤ payment.refunded_amount
      → IsSound s
      → IsSound (execute_refund provider env params s).1
  execute_refund-IsSound params payment s found lo hi v = record {
    balanced = execute_refund-Balances provider env params s v.balanced;
    within = elim (execute_refund_cases provider env params s) [
      | inl (e, refused) ↦ rw refused v.within
      | inr (payment', found', goes_on) ↦
          let same_row : payment' ≡ payment = cc in
          let own = find_own params.payment_id s.payments payment found in
          rw (goes_on, same_row)
            (refund-IsWithin params payment s own lo hi v
              (finish_refund provider env params payment s)
              (finish_refund-RefundOutcome provider env params payment s own _ refl))
    ];
  }

  -- A request for a refund keeps the tables sound, whatever the request: they are balanced, and what
  -- a payment has refunded is between nothing and its amount.
  pub request_refund-IsSound :
      (id : String) (amount : Option ℤ) (reason correlation_id : Option String) (s : Store)
      → IsSound s
      → IsSound (request_refund provider env id amount reason correlation_id s).1
  unfolding request_params
  request_refund-IsSound id amount reason correlation_id s v =
      elim (request_refund_cases provider env id amount reason correlation_id s) [
        | inl (e, refused) ↦ rw refused v
        | inr (x, payment, a, same) ↦
            let positive = a.positive in
            rw same (
              execute_refund-IsSound (request_params id x reason correlation_id) payment s a.found
                (omega arith) a.covered v)
      ]

  -- A charge of an amount that is not negative keeps the tables sound, if its identifier is new.
  pub charge-IsSound :
      (params : ChargeParams) (s : Store)
      → IsFresh env.payment_id s
      → IsNonNegative params.amount
      → IsSound s
      → IsSound (charge provider env params s).1
  unfolding charge new_payment
  charge-IsSound params s fresh sign v = record {
    balanced = charge-Balances provider env params s fresh v.balanced;
    within = ground (
      arith,
      All-append IsWithin s.payments
          (new_payment env params (get_or params.amount (pos 0))
              (provider.charge (charge_request params))
            ∷ [])
          v.within,
    );
  }

  -- The compensation of a failed reservation, which refunds what is left, keeps the tables sound.
  pub compensation-IsSound :
      (correlation_id : String) (event : InventoryReservationFailedEvent) (s : Store)
      → IsSound s
      → IsSound (process_inventory_reservation_failed provider env correlation_id event s).1
  unfolding process_inventory_reservation_failed
  compensation-IsSound correlation_id event s v =
      elim (Option-cases (find (λ p. p.order_id == event.order_id) s.payments)) [
        | inl missing ↦ rw missing v
        | inr (payment, found) ↦
            let own : (payment.id == payment.id) ≡ true = eq_refl payment.id in
            let (row, by_id) = find_hit _ (λ p. p.id == payment.id) s.payments payment found own in
            let same = find_sound (λ p. p.id == payment.id) s.payments row by_id in
            let known = All-find (IsBalanced s.ledger) _ s.payments payment v.balanced found in
            let row_known = All-find (IsBalanced s.ledger) _ s.payments row v.balanced by_id in
            let bounds = All-find IsWithin _ s.payments payment v.within found in
            rw (found, drop_state)
              (execute_refund-IsSound _ row s by_id (omega int_laws)
                (rw
                  (
                    same_amount s.ledger row payment same row_known known,
                    same_refunded s.ledger row payment same row_known known,
                  )
                  (omega int_laws))
                v)
      ]
