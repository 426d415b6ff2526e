-- ===== src/Payments/Events.antt =====
-- The processor of the payment service's events
-- (payment-service/src/modules/kafka/kafka-event.processor.service.ts), with the keys that it sets
-- in Redis. A message is given as `JSON.parse` reads it.
pub mod Delivery
use ecommerce_microservices.Common.{
  ℕ, ◌+◌, ◌*◌, String, Bool, true, false, not, Option, none, some, List, [], ◌∷◌, if◌then◌else◌,
  ltb, get_or, or_else, truthy, filter, any, lookup, ◌==◌, ◌&&◌, Result, ok, err, Exec, pure, throw,
  ◌>>=◌, ◌>>◌,
}
use ecommerce_microservices.Common.Text.{template}
use ecommerce_microservices.Payments.Entities.{PaymentProvider, PaymentError, Store, Env}
use ecommerce_microservices.Payments.Tables.{Call}
use ecommerce_microservices.Payments.Handlers.{
  OrderCreatedEvent, RefundRequiredEvent, InventoryReservationFailedEvent, process_order_created,
  process_refund_required, process_inventory_reservation_failed,
}

-- An object of a message, read as each of the three events.
pub record Body : Type 0 where
  pub order_created : OrderCreatedEvent
  pub refund_required : RefundRequiredEvent
  pub reservation_failed : InventoryReservationFailedEvent

pub record Message : Type 0 where
  pub event_type : Option String
  pub event_id : Option String
  pub payload : Option Body
  pub flat : Body

pub record Meta : Type 0 where
  pub topic : String
  pub partition : String
  pub offset : Option String
  pub headers : Option (List (String × String))

pub data EventError : Type 0 where
  malformed : EventError
  failed : PaymentError → EventError

-- The tables, and the keys in Redis, each with the time at which it expires.
pub record State : Type 0 where
  pub store : Store
  pub keys : List (String × ℕ)

-- `headers?.[key]`
abbrev pub header : Meta → String → Option String
header meta key = elim meta.headers [ none ↦ none | some headers ↦ lookup key headers ]

unfoldable pub event_type_of : Meta → Message → Option String
event_type_of meta parsed =
    or_else (header meta "event-type") (or_else (header meta "eventType") parsed.event_type)

position : Meta → String
position meta = elim (truthy meta.offset) [
  | some offset ↦ template (meta.topic ∷ "-" ∷ meta.partition ∷ "-" ∷ offset ∷ [])
  | none ↦ template (meta.topic ∷ "-" ∷ meta.partition ∷ [])
]

unfoldable pub event_id_of : Meta → Message → String
unfolding position
event_id_of meta parsed =
    get_or (or_else (header meta "event-id") (or_else (header meta "eventId") parsed.event_id))
      (position meta)

unfoldable pub dedup_key : Meta → Message → String
unfolding event_id_of
dedup_key meta parsed = template ("dedup:" ∷ meta.topic ∷ ":" ∷ event_id_of meta parsed ∷ [])

unfoldable pub correlation_id_of : Meta → Message → String
unfolding event_id_of
correlation_id_of meta parsed =
    get_or (or_else (header meta "correlation-id") (header meta "correlationId"))
      (event_id_of meta parsed)

-- A key that is set and has not expired.
unfoldable pub is_live : ℕ → String → List (String × ℕ) → Bool
is_live now key = any (λ e. e.0 == key && ltb now e.1)

-- How long a key lives: 86400 seconds.
abbrev pub dedup_ttl : ℕ
dedup_ttl = 86400000

-- A handler works on the tables alone.
unfoldable pub on_store : Call (Unit {0}) → Exec State EventError (Unit {0})
on_store m s =
    let (r, store') = m s.store in
    elim r [
      | ok a ↦ (ok a, record s { store = store' })
      | err e ↦ (err (failed e), record s { store = store' })
    ]

module _ (provider : PaymentProvider) (env : Env) where
  -- The `switch` on the event's type.
  unfoldable pub dispatch : Meta → Message → Exec State EventError (Unit {0})
  unfolding on_store
  dispatch meta parsed =
      let body = get_or parsed.payload parsed.flat in
      let correlation_id = correlation_id_of meta parsed in
      let event_type = get_or (event_type_of meta parsed) "" in
      if event_type == "OrderCreated"
      then on_store (process_order_created provider env correlation_id body.order_created)
      else if event_type == "RefundRequired"
      then on_store (process_refund_required provider env correlation_id body.refund_required)
      else if event_type == "InventoryReservationFailed"
      then on_store
          (process_inventory_reservation_failed provider env correlation_id body.reservation_failed)
      else pure tt

  -- The key is set before the event is handled: `SET key 1 EX 86400 NX`.
  unfoldable pub process : Meta → Option Message → Exec State EventError (Unit {0})
  process meta none s = (err malformed, s)
  process meta (some parsed) s =
      let key = dedup_key meta parsed in
      if is_live env.now key s.keys
      then (ok tt, s)
      else dispatch meta parsed
          (record s { keys = (key, env.now + dedup_ttl) ∷ filter (λ e. not (e.0 == key)) s.keys })
