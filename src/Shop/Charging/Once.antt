-- ===== src/Shop/Charging/Once.antt =====
-- All deliveries of the event of one order
-- (payment-service/src/modules/kafka/kafka-consumer.service.ts).
use ecommerce_microservices.Common.{
  String, false, ◌≡◌, refl, sym, ap, ◌∙◌, inl, inr, Option, none, List, [], ◌∷◌, ◌++◌, arith,
  get_or, ok, subst, Bool-cases,
}
use ecommerce_microservices.Common.Int.{pos}
use ecommerce_microservices.Orders.Entities.{Order, OrderItem, Payload, order_created, Outbox}
use ecommerce_microservices.Orders.Relay.{KafkaMessage, message_of}
use ecommerce_microservices.Payments.Entities.{Payment, PaymentProvider, LedgerEntry, Store, Env}
use ecommerce_microservices.Payments.Charge.{
  ChargeParams, charge, charge_new, new_payment, find_existing,
}
use ecommerce_microservices.Payments.Charge.Outcome.{charge_missing, charge_again, charge_new-ok}
use ecommerce_microservices.Payments.Events.{Message, State, correlation_id_of, dedup_key, is_live}
use ecommerce_microservices.Shop.Events.{wire}
use ecommerce_microservices.Shop.Charging.{
  Attempt, meta_of, order_params, ReadsOrder, attempt, pay_all, attempt-new, attempt-seen,
}

-- What a new charge makes of its parameters.
charge_new-payment :
    (provider : PaymentProvider) (env : Env) (params : ChargeParams) (s : Store) (pay : Payment)
    (s' : Store)
    → charge_new provider env params s ≡ (ok pay, s')
    → (pay.order_id ≡ params.order_id)
      × (pay.customer_user_id ≡ params.customer_user_id)
      × (pay.amount ≡ get_or params.amount (pos 0))
unfolding charge_new new_payment
charge_new-payment provider env params s pay s' done = (ground arith, ground arith, ground arith)

-- A delivery after the one that has charged the order.
attempt-paid :
    (parse : String → Option Message) (print : Payload → String) (m : KafkaMessage) (a : Attempt)
    (parsed : Message) (order : Order) (items : List OrderItem) (s : State) (store' : Store)
    → m.payload ≡ order_created order items
    → m.event_type ≡ "OrderCreated"
    → ReadsOrder print parse parsed order items
    → ((env : Env) (params : ChargeParams)
        → params.order_id ≡ order.id
        → (p : Payment) × (charge a.provider env params store' ≡ (ok p, store')))
    → s.store ≡ store'
    → (attempt parse (wire print m) a s).store ≡ store'
attempt-paid parse print m a parsed order items s store' same typed reads again here =
    let live = is_live a.env.now (dedup_key (meta_of a (wire print m)) parsed) s.keys in
    elim (Bool-cases live) [
      | inl seen ↦ attempt-seen parse print m a parsed order items s same reads seen ∙ here
      | inr new ↦
          let params = order_params order (correlation_id_of (meta_of a (wire print m)) parsed) in
          let (p, charged) = again a.env params refl in
          attempt-new parse print m a parsed order items s p store' same typed reads new
            (subst (λ t. charge a.provider a.env params t ≡ (ok p, store')) (sym here) charged)
    ]

pay_all-paid :
    (parse : String → Option Message) (print : Payload → String) (m : KafkaMessage)
    (attempts : List Attempt) (parsed : Message) (order : Order) (items : List OrderItem)
    (s : State) (store' : Store)
    → m.payload ≡ order_created order items
    → m.event_type ≡ "OrderCreated"
    → ReadsOrder print parse parsed order items
    → ((provider : PaymentProvider) (env : Env) (params : ChargeParams)
        → params.order_id ≡ order.id
        → (p : Payment) × (charge provider env params store' ≡ (ok p, store')))
    → s.store ≡ store'
    → (pay_all parse (wire print m) attempts s).store ≡ store'
unfolding pay_all
pay_all-paid parse print m [] parsed order items s store' same typed reads again here = here
pay_all-paid parse print m (a ∷ attempts) parsed order items s store' same typed reads again here =
    pay_all-paid parse print m attempts parsed order items (attempt parse (wire print m) a s) store'
      same typed reads again
      (attempt-paid parse print m a parsed order items s store' same typed reads (again a.provider)
        here)

-- An order's event that the relay publishes is charged once, however often Kafka delivers it, to
-- whatever worker and at whatever time, also after its key in Redis has expired: the payments grow
-- by one, of the order, its customer and its total, and the ledger by one entry of that amount. The
-- text of the payload reads back, and the first delivery finds its key not set and no payment of
-- the order, and its charge returns.
pub order_charged_once :
    (print : Payload → String) (parse : String → Option Message) (row : Outbox) (order : Order)
    (items : List OrderItem) (parsed : Message) (a : Attempt) (attempts : List Attempt) (s : State)
    (pay : Payment) (store' : Store)
    → row.payload ≡ order_created order items
    → row.event_type ≡ "OrderCreated"
    → ReadsOrder print parse parsed order items
    → is_live a.env.now (dedup_key (meta_of a (wire print (message_of row))) parsed) s.keys ≡ false
    → find_existing a.env
        (order_params order (correlation_id_of (meta_of a (wire print (message_of row))) parsed))
        s.store
      ≡ none
    → charge a.provider a.env
        (order_params order (correlation_id_of (meta_of a (wire print (message_of row))) parsed))
        s.store
      ≡ (ok pay, store')
    → (entry : LedgerEntry) × ((pay_all parse
          (wire print (message_of row))
          (a ∷ attempts)
          s).store.payments
        ≡ s.store.payments ++ pay ∷ [])
      × ((pay_all parse (wire print (message_of row)) (a ∷ attempts) s).store.ledger
          ≡ s.store.ledger ++ entry ∷ [])
      × (entry.amount ≡ pos order.total_amount)
      × (pay.order_id ≡ order.id)
      × (pay.customer_user_id ≡ order.customer_user_id)
      × (pay.amount ≡ pos order.total_amount)
unfolding pay_all message_of
order_charged_once print parse row order items parsed a attempts s pay store' same typed reads new
      missing charged =
    let m = message_of row in
    let params = order_params order (correlation_id_of (meta_of a (wire print m)) parsed) in
    let fresh = sym (charge_missing a.provider a.env params s.store missing) ∙ charged in
    let recorded = charge_new-ok a.provider a.env params s.store pay store' fresh in
    let (of_order, of_customer, of_total) =
      charge_new-payment a.provider a.env params s.store pay store' fresh in
    let first =
      attempt-new parse print m a parsed order items s pay store' same typed reads new charged in
    let done =
      pay_all-paid parse print m attempts parsed order items (attempt parse (wire print m) a s)
        store' same typed reads
        (λ provider env params' own.
          charge_again a.provider provider a.env env params params' s.store store' pay charged
            (own ∙ sym of_order))
        first in
    (
      recorded.entry,
      ap (λ t. t.payments) done ∙ recorded.payments,
      ap (λ t. t.ledger) done ∙ recorded.ledger,
      recorded.same_amount ∙ of_total,
      of_order,
      of_customer,
      of_total,
    )
