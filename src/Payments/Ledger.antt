-- ===== src/Payments/Ledger.antt =====
-- The sums of the ledger's entries beside the amounts of the payments, in `charge` and
-- `executeRefund` of payment-service/src/modules/payment/payments.service.ts.
use ecommerce_microservices.Common.{
  String, Bool, true, false, ◌≡◌, refl, sym, ap, ◌∙◌, inl, inr, some, List, [], ◌∷◌, ◌++◌, arith,
  if◌then◌else◌, ◌==◌, ◌&&◌, eq_iff, All, All-append, All-find, find, update_where, Option-cases,
  get_or,
}
use ecommerce_microservices.Common.Int.{ℤ, pos, ◌+ℤ◌, int_laws}
use ecommerce_microservices.Payments.Entities.{
  Payment, LedgerEntry, LedgerEntryType, charge_entry, refund_entry, ChargeResult, PaymentProvider,
  Store, Env,
}
use ecommerce_microservices.Payments.Tables.{refund_columns}
use ecommerce_microservices.Payments.Charge.{
  ChargeParams, charge, new_payment, charge_ledger, charge_request,
}
use ecommerce_microservices.Payments.Refund.Guards.{find_own}
use ecommerce_microservices.Payments.Refund.{
  RefundParams, execute_refund, begin_refund, finish_refund, refund_ledger, refunded_payment,
}

abbrev pub is_refund : LedgerEntryType → Bool
is_refund charge_entry = false
is_refund refund_entry = true

abbrev pub is_charge : LedgerEntryType → Bool
is_charge charge_entry = true
is_charge refund_entry = false

-- The sum of the entries of one payment whose type passes the test.
pub total : (LedgerEntryType → Bool) → String → List LedgerEntry → ℤ
total test id [] = pos 0
total test id (e ∷ es) =
    let rest = total test id es in
    if e.payment_id == id && test e.type then rest +ℤ e.amount else rest

-- The row agrees with the ledger.
pub record IsBalanced (ledger : List LedgerEntry) (p : Payment) : Type 0 where
  pub charged : total is_charge p.id ledger ≡ p.amount
  pub refunded : total is_refund p.id ledger ≡ p.refunded_amount

abbrev pub Balances : Store → Type 0
Balances s = All (IsBalanced s.ledger) s.payments

-- Nothing in the tables names the identifier.
abbrev pub IsFresh : String → Store → Type 0
IsFresh id s =
    All (λ p. (p.id == id) ≡ false) s.payments × All (λ e. (e.payment_id == id) ≡ false) s.ledger

pub total-append :
    (test : LedgerEntryType → Bool) (id : String) (es : List LedgerEntry) (e : LedgerEntry)
    → total test id (es ++ e ∷ []) ≡ (
        if e.payment_id == id && test e.type
        then total test id es +ℤ e.amount
        else total test id es)
unfolding total
total-append test id [] e = refl
total-append test id (x ∷ es) e = grind (int_laws, total-append test id es e)

pub total-fresh :
    (test : LedgerEntryType → Bool) (id : String) (es : List LedgerEntry)
    → All (λ e. (e.payment_id == id) ≡ false) es
    → total test id es ≡ pos 0
unfolding total
total-fresh test id [] h = refl
total-fresh test id (e ∷ es) h = ground (arith, total-fresh test id es h.1)

-- An entry of another payment leaves the row balanced.
IsBalanced-other :
    (es : List LedgerEntry) (e : LedgerEntry) (p : Payment)
    → (e.payment_id == p.id) ≡ false
    → IsBalanced es p
    → IsBalanced (es ++ e ∷ []) p
IsBalanced-other es e p h b =
    ground (arith, total-append is_charge p.id es e, total-append is_refund p.id es e)

others_IsBalanced :
    (es : List LedgerEntry) (e : LedgerEntry) (ps : List Payment)
    → All (λ p. (p.id == e.payment_id) ≡ false) ps
    → All (IsBalanced es) ps
    → All (IsBalanced (es ++ e ∷ [])) ps
others_IsBalanced es e [] h b = tt
others_IsBalanced es e (p ∷ ps) h b = (
  IsBalanced-other es e p (ground (arith, eq_iff p.id e.payment_id, eq_iff e.payment_id p.id)) b.0,
  others_IsBalanced es e ps h.1 b.1,
)

zero_add : (a : ℤ) → pos 0 +ℤ a ≡ a
zero_add a = omega int_laws

-- The charge entry of a new payment balances it.
charge_IsBalanced :
    (es : List LedgerEntry) (e : LedgerEntry) (p : Payment)
    → All (λ x. (x.payment_id == p.id) ≡ false) es
    → e.payment_id ≡ p.id
    → e.type ≡ charge_entry
    → e.amount ≡ p.amount
    → p.refunded_amount ≡ pos 0
    → IsBalanced (es ++ e ∷ []) p
charge_IsBalanced es e p fresh same type amount none_yet = ground (
  arith,
  eq_iff e.payment_id p.id,
  total-append is_charge p.id es e,
  total-append is_refund p.id es e,
  total-fresh is_charge p.id es fresh,
  total-fresh is_refund p.id es fresh,
  zero_add e.amount,
)

-- The two rows that a charge writes keep the tables balanced.
charge_rows-IsBalanced :
    (env : Env) (params : ChargeParams) (amount : ℤ) (result : ChargeResult) (s : Store)
    → IsFresh env.payment_id s
    → Balances s
    → All
        (IsBalanced (s.ledger ++ charge_ledger env amount result ∷ []))
        (s.payments ++ new_payment env params amount result ∷ [])
unfolding new_payment charge_ledger
charge_rows-IsBalanced env params amount result s fresh b =
    let entry = charge_ledger env amount result in
    let pay = new_payment env params amount result in
    All-append (IsBalanced (s.ledger ++ entry ∷ [])) s.payments (pay ∷ [])
      (others_IsBalanced s.ledger entry s.payments fresh.0 b)
      (charge_IsBalanced s.ledger entry pay fresh.1 refl refl refl refl, tt)

-- A refund entry together with its update keeps the rows balanced.
refund_rows-IsBalanced :
    (es : List LedgerEntry) (e : LedgerEntry) (write : Payment → Payment) (ps : List Payment)
    → e.type ≡ refund_entry
    → ((p : Payment) → (write p).id ≡ p.id)
    → ((p : Payment) → (write p).amount ≡ p.amount)
    → ((p : Payment)
        → (p.id == e.payment_id) ≡ true
        → IsBalanced es p
        → (write p).refunded_amount ≡ p.refunded_amount +ℤ e.amount)
    → All (IsBalanced es) ps
    → All (IsBalanced (es ++ e ∷ [])) (update_where (λ p. p.id == e.payment_id) write ps)
refund_rows-IsBalanced es e write [] type same_id same_amount more b = tt
refund_rows-IsBalanced es e write (p ∷ ps) type same_id same_amount more b = (
  ground (
    arith,
    eq_iff p.id e.payment_id,
    eq_iff e.payment_id p.id,
    same_id p,
    same_amount p,
    more p,
    b.0,
    total-append is_charge p.id es e,
    total-append is_refund p.id es e,
  ),
  refund_rows-IsBalanced es e write ps type same_id same_amount more b.1,
)

-- Two rows with one identifier have refunded the same.
pub same_refunded :
    (es : List LedgerEntry) (p q : Payment)
    → (p.id == q.id) ≡ true
    → IsBalanced es p
    → IsBalanced es q
    → q.refunded_amount ≡ p.refunded_amount
same_refunded es p q same b c =
    let ids : p.id ≡ q.id = (eq_iff p.id q.id).0 same in
    sym c.refunded ∙ ap (λ id. total is_refund id es) (sym ids) ∙ b.refunded

pub same_amount :
    (es : List LedgerEntry) (p q : Payment)
    → (p.id == q.id) ≡ true
    → IsBalanced es p
    → IsBalanced es q
    → q.amount ≡ p.amount
same_amount es p q same b c =
    let ids : p.id ≡ q.id = (eq_iff p.id q.id).0 same in
    sym c.charged ∙ ap (λ id. total is_charge id es) (sym ids) ∙ b.charged

refund_write-IsBalanced :
    (env : Env) (params : RefundParams) (payment : Payment) (s : Store)
    → find (λ p. p.id == payment.id) s.payments ≡ some payment
    → Balances s
    → All (IsBalanced (s.ledger ++ refund_ledger env params payment ∷ [])) (
        update_where
          (λ p. p.id == payment.id)
          (refund_columns env (refunded_payment payment params.amount))
          s.payments)
unfolding refund_ledger refunded_payment refund_columns
refund_write-IsBalanced env params payment s found b =
    let known =
      All-find (IsBalanced s.ledger) (λ p. p.id == payment.id) s.payments payment b found in
    refund_rows-IsBalanced s.ledger (refund_ledger env params payment)
      (refund_columns env (refunded_payment payment params.amount)) s.payments refl (λ p. refl)
      (λ p. refl)
      (λ p same q. ap (λ a. a +ℤ params.amount) (same_refunded s.ledger p payment same q known)) b

module _ (provider : PaymentProvider) (env : Env) where
  -- Whatever happens in a charge, throws and failed writes included, the tables stay balanced, if
  -- the identifier of the new payment is new.
  pub charge-Balances :
      (params : ChargeParams) (s : Store)
      → IsFresh env.payment_id s
      → Balances s
      → Balances (charge provider env params s).1
  unfolding charge
  charge-Balances params s fresh b = ground (
    arith,
    charge_rows-IsBalanced env params (get_or params.amount (pos 0))
        (provider.charge (charge_request params)) s fresh b,
  )

  finish_refund-Balances :
      (params : RefundParams) (payment : Payment) (s : Store)
      → find (λ p. p.id == payment.id) s.payments ≡ some payment
      → Balances s
      → Balances (finish_refund provider env params payment s).1
  unfolding finish_refund refund_ledger
  finish_refund-Balances params payment s found b =
      ground (arith, refund_write-IsBalanced env params payment s found b)

  -- Whatever happens in `executeRefund`, the tables stay balanced: a payment's amount is the sum of
  -- its charge entries, and its refunded amount the sum of its refund entries.
  pub execute_refund-Balances :
      (params : RefundParams) (s : Store)
      → Balances s
      → Balances (execute_refund provider env params s).1
  unfolding execute_refund begin_refund
  execute_refund-Balances params s b =
      elim (Option-cases (find (λ p. p.id == params.payment_id) s.payments)) [
        | inl missing ↦ ground arith
        | inr (payment, found) ↦ ground (
          arith,
          finish_refund-Balances params payment s
              (find_own params.payment_id s.payments payment found) b,
        )
      ]
