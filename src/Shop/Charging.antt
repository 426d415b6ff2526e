-- ===== src/Shop/Charging.antt =====
-- The way of a new order to its charge: the message of its event, published by the relay of the order
-- service (order-service/src/modules/outbox/outbox.service.ts), and what the payment service makes
-- of it (payment-service/src/modules/kafka/kafka-consumer.service.ts).
pub mod Once
use ecommerce_microservices.Common.{
  String, true, false, ◌≡◌, refl, sym, ap, ◌∙◌, inl, inr, Option, none, some, List, [], ◌∷◌, ◌++◌,
  ◌+◌, arith, not, filter, get_or, ◌==◌, Result, ok, subst, Bool-cases, Option-cases,
}
use ecommerce_microservices.Common.Int.{pos}
use ecommerce_microservices.Common.Kafka
use ecommerce_microservices.Common.Kafka.{headers_of, extract_message}
use ecommerce_microservices.Orders.Entities.{Order, OrderItem, Payload, order_created, Outbox}
use ecommerce_microservices.Orders.Relay.{KafkaMessage, message_of}
use ecommerce_microservices.Payments.Entities.{
  Payment, PaymentProvider, PaymentError, LedgerEntry, Store, Env,
}
use ecommerce_microservices.Payments.Charge.{
  ChargeParams, charge, charge_new, new_payment, find_existing,
}
use ecommerce_microservices.Payments.Charge.Outcome.{charge_missing, charge_again, charge_new-ok}
use ecommerce_microservices.Payments.Handlers.{OrderCreatedEvent, process_order_created}
use ecommerce_microservices.Payments.Events.{
  Message, Meta, State, event_type_of, correlation_id_of, dedup_key, is_live, dedup_ttl, dispatch,
  process, on_store,
}
use ecommerce_microservices.Payments.Consumer.{handle_message}
use ecommerce_microservices.Shop.Events.{wire}

-- The fields of the event, as the payment service reads them: the order names no card and no key.
pub created_event : Order → OrderCreatedEvent
created_event order = record {
  order_id = order.id;
  customer_user_id = order.customer_user_id;
  amount = none;
  total_amount = some (pos order.total_amount);
  currency = some order.currency;
  card_token = none;
  idempotency_key = none;
}

abbrev pub order_params : Order → String → ChargeParams
order_params order correlation_id = record {
  order_id = order.id;
  customer_user_id = order.customer_user_id;
  amount = some (pos order.total_amount);
  currency = some order.currency;
  card_token = "tok_mock_default";
  idempotency_key = none;
  correlation_id = some correlation_id;
}

-- One delivery of the message.
pub record Attempt : Type 0 where
  pub provider : PaymentProvider
  pub env : Env
  pub topic : String
  pub partition : String
  pub offset : String

abbrev pub meta_of : Attempt → Kafka.KafkaMessage → Meta
meta_of a message = record {
  topic = a.topic;
  partition = a.partition;
  offset = some a.offset;
  headers = some (headers_of message);
}

-- The text of the payload is not empty and reads back, with no `payload` inside.
abbrev pub ReadsOrder :
    (Payload → String) → (String → Option Message) → Message → Order → List OrderItem → Type 0
ReadsOrder print parse parsed order items =
    ((print (order_created order items) == "") ≡ false)
    × (parse (print (order_created order items)) ≡ some parsed)
    × (parsed.payload ≡ none)
    × (parsed.flat.order_created ≡ created_event order)

module _ (parse : String → Option Message) (message : Kafka.KafkaMessage) where
  abbrev pub attempt : Attempt → State → State
  attempt a s =
      (handle_message a.provider parse a.env
        (record { topic = a.topic; partition = a.partition; offset = a.offset; message = message })
        s).1

  unfoldable pub pay_all : List Attempt → State → State
  pay_all [] s = s
  pay_all (a ∷ attempts) s = pay_all attempts (attempt a s)

-- The handler, as a charge.
handler-charge :
    (provider : PaymentProvider) (env : Env) (order : Order) (correlation_id : String) (s : Store)
    (pay : Payment) (s' : Store)
    → charge provider env (order_params order correlation_id) s ≡ (ok pay, s')
    → process_order_created provider env correlation_id (created_event order) s ≡ (ok tt, s')
unfolding process_order_created created_event
handler-charge provider env order correlation_id s pay s' charged = ground arith

wire-OrderCreated :
    (print : Payload → String) (m : KafkaMessage) (a : Attempt) (parsed : Message)
    → m.event_type ≡ "OrderCreated"
    → event_type_of (meta_of a (wire print m)) parsed ≡ some "OrderCreated"
unfolding event_type_of wire headers_of
wire-OrderCreated print m a parsed typed = elim (Option-cases m.correlation_id) [
  | inl absent ↦ ground arith
  | inr (id, there) ↦ ground arith
]

on_store-ok :
    (call : Store → Result PaymentError (Unit {0}) × Store) (s : State) (store' : Store)
    → call s.store ≡ (ok tt, store')
    → (on_store call s).1.store ≡ store'
unfolding on_store
on_store-ok call s store' done = ground arith

dispatch-OrderCreated :
    (provider : PaymentProvider) (env : Env) (meta : Meta) (parsed : Message)
    (event : OrderCreatedEvent) (s : State) (store' : Store)
    → event_type_of meta parsed ≡ some "OrderCreated"
    → (get_or parsed.payload parsed.flat).order_created ≡ event
    → process_order_created provider env (correlation_id_of meta parsed) event s.store
      ≡ (ok tt, store')
    → (dispatch provider env meta parsed s).1.store ≡ store'
unfolding dispatch
dispatch-OrderCreated provider env meta parsed event s store' typed same handled =
    let done =
      on_store-ok
        (process_order_created provider env (correlation_id_of meta parsed)
          (get_or parsed.payload parsed.flat).order_created)
        s store'
        (subst
          (λ e.
            process_order_created provider env (correlation_id_of meta parsed) e s.store
            ≡ (ok tt, store'))
          (sym same) handled) in
    rw typed done

-- A delivery that finds the key live, or whose charge finds a payment, leaves the tables.
pub attempt-new :
    (parse : String → Option Message) (print : Payload → String) (m : KafkaMessage) (a : Attempt)
    (parsed : Message) (order : Order) (items : List OrderItem) (s : State) (pay : Payment)
    (store' : Store)
    → m.payload ≡ order_created order items
    → m.event_type ≡ "OrderCreated"
    → ReadsOrder print parse parsed order items
    → is_live a.env.now (dedup_key (meta_of a (wire print m)) parsed) s.keys ≡ false
    → charge a.provider a.env
        (order_params order (correlation_id_of (meta_of a (wire print m)) parsed))
        s.store
      ≡ (ok pay, store')
    → (attempt parse (wire print m) a s).store ≡ store'
unfolding handle_message extract_message process wire
attempt-new parse print m a parsed order items s pay store' same typed (text, reads, flat, fields)
      new charged =
    let meta = meta_of a (wire print m) in
    let type = wire-OrderCreated print m a parsed typed in
    let handled =
      handler-charge a.provider a.env order (correlation_id_of (meta_of a (wire print m)) parsed)
        s.store pay store' charged in
    let there : ((print m.payload == "") ≡ false) × (parse (print m.payload) ≡ some parsed) =
      subst (λ q. ((print q == "") ≡ false) × (parse (print q) ≡ some parsed)) (sym same)
        (text, reads) in
    let body : (get_or parsed.payload parsed.flat).order_created ≡ created_event order =
      ap (λ o. (get_or o parsed.flat).order_created) flat ∙ fields in
    let marked : State = record s {
      keys =
          (dedup_key meta parsed, a.env.now + dedup_ttl)
          ∷ filter (λ e. not (e.0 == dedup_key meta parsed)) s.keys;
    } in
    let done =
      dispatch-OrderCreated a.provider a.env meta parsed (created_event order) marked store' type
        body handled in
    ground arith

pub attempt-seen :
    (parse : String → Option Message) (print : Payload → String) (m : KafkaMessage) (a : Attempt)
    (parsed : Message) (order : Order) (items : List OrderItem) (s : State)
    → m.payload ≡ order_created order items
    → ReadsOrder print parse parsed order items
    → is_live a.env.now (dedup_key (meta_of a (wire print m)) parsed) s.keys ≡ true
    → (attempt parse (wire print m) a s).store ≡ s.store
unfolding handle_message extract_message process wire
attempt-seen parse print m a parsed order items s same (text, reads, flat, fields) live =
    let there : ((print m.payload == "") ≡ false) × (parse (print m.payload) ≡ some parsed) =
      subst (λ q. ((print q == "") ≡ false) × (parse (print q) ≡ some parsed)) (sym same)
        (text, reads) in
    ground arith
