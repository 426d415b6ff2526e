-- ===== src/Payments/Histories.antt =====
-- Histories of the payment service: charges, refunds and compensations in any order, each with its
-- own clock, identifiers, provider and failures of the database
-- (payment-service/src/modules/payment/payments.service.ts).
use ecommerce_microservices.Common.{String, ◌≡◌, Option, some, [], find, ◌==◌, All-find, arith}
use ecommerce_microservices.Common.Int.{ℤ, ◌≤ℤ◌}
use ecommerce_microservices.Payments.Entities.{PaymentProvider, Payment, Store, Env}
use ecommerce_microservices.Payments.Charge.{ChargeParams, charge}
use ecommerce_microservices.Payments.Refund.{request_refund}
use ecommerce_microservices.Payments.Handlers.{
  InventoryReservationFailedEvent, process_inventory_reservation_failed,
}
use ecommerce_microservices.Payments.Ledger.{IsFresh, IsBalanced, total, is_charge, is_refund}
use ecommerce_microservices.Payments.Soundness.{
  IsSound, IsWithin, IsNonNegative, charge-IsSound, request_refund-IsSound, compensation-IsSound,
}

pub data Step (s : Store) : Store → Type 0 where
  charged :
      (provider : PaymentProvider) (env : Env) (params : ChargeParams)
      → IsFresh env.payment_id s
      → IsNonNegative params.amount
      → Step s (charge provider env params s).1
  refunded :
      (provider : PaymentProvider) (env : Env) (id : String) (amount : Option ℤ)
      (reason correlation_id : Option String)
      → Step s (request_refund provider env id amount reason correlation_id s).1
  compensated :
      (provider : PaymentProvider) (env : Env) (correlation_id : String)
      (event : InventoryReservationFailedEvent)
      → Step s (process_inventory_reservation_failed provider env correlation_id event s).1

pub data Reach (s : Store) : Store → Type 0 where
  here : Reach s s
  next : {t u : Store} → Reach s t → Step t u → Reach s u

abbrev pub empty : Store
empty = record { payments = []; ledger = []; outbox = []; charges = []; refunds = [] }

Step-IsSound : {s t : Store} → Step s t → IsSound s → IsSound t
Step-IsSound {s} (charged provider env params fresh sign) v =
    charge-IsSound provider env params s fresh sign v
Step-IsSound {s} (refunded provider env id amount reason correlation_id) v =
    request_refund-IsSound provider env id amount reason correlation_id s v
Step-IsSound {s} (compensated provider env correlation_id event) v =
    compensation-IsSound provider env correlation_id event s v

Reach-IsSound : {s t : Store} → IsSound s → Reach s t → IsSound t
Reach-IsSound v here = v
Reach-IsSound v (next r st) = Step-IsSound st (Reach-IsSound v r)

-- After any history of charges, of requests for refunds and of compensations, from empty tables,
-- where each charge has a new identifier and no negative amount: the refund entries of a payment
-- that is found add up to no more than its charge entries.
pub refunds-le-charges :
    (s : Store) (id : String) (payment : Payment)
    → Reach empty s
    → find (λ p. p.id == id) s.payments ≡ some payment
    → total is_refund payment.id s.ledger ≤ℤ total is_charge payment.id s.ledger
refunds-le-charges s id payment r found =
    let v = Reach-IsSound (record { balanced = tt; within = tt }) r in
    let b = All-find (IsBalanced s.ledger) (λ p. p.id == id) s.payments payment v.balanced found in
    let w = All-find IsWithin (λ p. p.id == id) s.payments payment v.within found in
    ground (arith, b, w)
