-- ===== src/Shop/Events.antt =====
-- The way of an event of an order: the message that the relay of the order service publishes
-- (order-service/src/modules/outbox/outbox.service.ts,
-- order-service/src/modules/kafka/kafka-producer.service.ts), and what the notification service
-- makes of it (notification-service/src/modules/kafka/kafka-consumer.service.ts).
use ecommerce_microservices.Common.{
  String, true, false, ◌≡◌, refl, ap, ◌∙◌, inl, inr, Option, none, some, List, [], ◌∷◌, ◌++◌, arith,
  ◌==◌, Option-cases,
}
use ecommerce_microservices.Common.Kafka
use ecommerce_microservices.Common.Kafka.{
  HeaderValue, missing, one, several, headers_of, flatten, extract_message,
}
use ecommerce_microservices.Orders.Entities.{Payload, Outbox}
use ecommerce_microservices.Orders.Relay.{KafkaMessage, message_of}
use ecommerce_microservices.Notifications.Entities.{
  CreateNotificationDto, DispatchParams, Store, Env,
}
use ecommerce_microservices.Notifications.Dispatcher.{Dispatcher}
use ecommerce_microservices.Notifications.Service.{
  new_delivery, dispatch_one, params_of, create_and_dispatch,
}
use ecommerce_microservices.Notifications.Processor.{
  EventPayload, Message, event_id_of, event_type_of, correlation_id_of, notification_for,
  exists_by_event_id_and_type, mark_processed, handle, process, meta_of,
}
use ecommerce_microservices.Notifications.Processor.Once.{notified_once}
use ecommerce_microservices.Notifications.Recipients.{event_payload}
use ecommerce_microservices.Notifications.Consumer.{handle_message}

-- The headers of the published message: the correlation identifier only where there is one.
wire_headers : KafkaMessage → List (String × HeaderValue)
wire_headers m =
    let rest = ("event-id", one m.event_id) ∷ ("event-type", one m.event_type) ∷ [] in
    elim m.correlation_id [ none ↦ rest | some id ↦ ("correlation-id", one id) ∷ rest ]

-- `print` is `JSON.stringify`.
unfoldable pub wire : (Payload → String) → KafkaMessage → Kafka.KafkaMessage
unfolding wire_headers
wire print m = record { value = some (print m.payload); headers = some (wire_headers m) }

-- The text of a payload is not empty, and reads back as the payload's fields, with no `payload`
-- inside.
abbrev pub ReadsBack : (Payload → String) → (String → Option Message) → Payload → Type 0
ReadsBack print parse p =
    ((print p == "") ≡ false)
    × ((m : Message) × (parse (print p) ≡ some m) × (m.payload ≡ none) × (m.flat ≡ event_payload p))

-- The same message, delivered several times.
module _ (dispatcher : Dispatcher) (parse : String → Option Message) where
  pub deliver : List Env → Kafka.KafkaMessage → Store → Store
  deliver [] message s = s
  deliver (env ∷ envs) message s =
      deliver envs message (handle_message dispatcher parse env message s)

  deliver_again :
      (envs : List Env) (message : Kafka.KafkaMessage) (s : Store)
      → ((later : Env) → handle_message dispatcher parse later message s ≡ s)
      → deliver envs message s ≡ s
  unfolding deliver
  deliver_again [] message s still = refl
  deliver_again (env ∷ envs) message s still =
      ap (deliver envs message) (still env) ∙ deliver_again envs message s still

  handled_once :
      (env later : Env) (message : Kafka.KafkaMessage) (s : Store)
      → env.created ≡ true
      → env.event_saved ≡ true
      → handle_message dispatcher parse later message
          (handle_message dispatcher parse env message s)
        ≡ handle_message dispatcher parse env message s
  unfolding handle_message
  handled_once env later message s created saved = elim (Option-cases (extract_message message)) [
    | inl empty ↦ ground arith
    | inr (raw, there) ↦
        let once =
          notified_once dispatcher env later (some (headers_of message)) (parse raw) s created
            saved in
        ground arith
  ]

-- The identifier and the type of the event, as they come out of the headers.
wire-event_id :
    (print : Payload → String) (m : KafkaMessage) (parsed : Message)
    → (m.event_id == "") ≡ false
    → event_id_of (some (headers_of (wire print m))) parsed ≡ some m.event_id
unfolding event_id_of headers_of wire
wire-event_id print m parsed named = elim (Option-cases m.correlation_id) [
  | inl absent ↦ ground arith
  | inr (id, there) ↦ ground arith
]

wire-event_type :
    (print : Payload → String) (m : KafkaMessage) (parsed : Message)
    → (m.event_type == "") ≡ false
    → event_type_of (some (headers_of (wire print m))) parsed ≡ some m.event_type
unfolding event_type_of headers_of wire
wire-event_type print m parsed named = elim (Option-cases m.correlation_id) [
  | inl absent ↦ ground arith
  | inr (id, there) ↦ ground arith
]

handle-dispatched :
    (dispatcher : Dispatcher) (env : Env) (event_id event_type : String)
    (correlation_id : Option String) (payload : EventPayload) (dto : CreateNotificationDto)
    (s : Store)
    → env.created ≡ true
    → notification_for event_type payload ≡ some dto
    → (handle dispatcher env event_id event_type correlation_id payload s).1.dispatched
      ≡ s.dispatched
        ++ params_of (new_delivery env dto (meta_of event_id event_type correlation_id)) ∷ []
unfolding handle mark_processed create_and_dispatch dispatch_one
handle-dispatched dispatcher env event_id event_type correlation_id payload dto s created asked =
    ground arith

-- A message that is new is handled with the fields of its payload.
wire-handled :
    (dispatcher : Dispatcher) (print : Payload → String) (parse : String → Option Message)
    (env : Env) (m : KafkaMessage) (s : Store)
    → ReadsBack print parse m.payload
    → (m.event_id == "") ≡ false
    → (m.event_type == "") ≡ false
    → exists_by_event_id_and_type m.event_id m.event_type s ≡ false
    → handle_message dispatcher parse env (wire print m) s
      ≡ (handle dispatcher env m.event_id m.event_type
          (correlation_id_of (some (headers_of (wire print m))))
          (event_payload m.payload)
          s).1
unfolding handle_message wire extract_message process
wire-handled dispatcher print parse env m s (text, (parsed, reads, plain, fields)) named typed new =
    let id = wire-event_id print m parsed named in
    let type = wire-event_type print m parsed typed in ground arith

-- What the dispatcher is asked for a notification.
abbrev pub IsAskedFor : CreateNotificationDto → DispatchParams → Type 0
IsAskedFor dto p = (p.recipient ≡ dto.recipient) × (p.subject ≡ dto.subject) × (p.body ≡ dto.body)

-- An event that the relay of the order service publishes, and that asks for a notification, is
-- mailed once, however often Kafka delivers the message: the dispatcher is asked once more than
-- before, for that notification. The event has an identifier and a type and has not been marked
-- yet, the first delivery saves the notification and the mark, and the payload reads back.
pub event_mailed_once :
    (dispatcher : Dispatcher) (print : Payload → String) (parse : String → Option Message)
    (env : Env) (envs : List Env) (row : Outbox) (dto : CreateNotificationDto) (s : Store)
    → ReadsBack print parse row.payload
    → (row.event_id == "") ≡ false
    → (row.event_type == "") ≡ false
    → exists_by_event_id_and_type row.event_id row.event_type s ≡ false
    → notification_for row.event_type (event_payload row.payload) ≡ some dto
    → env.created ≡ true
    → env.event_saved ≡ true
    → (p : DispatchParams) × ((deliver dispatcher parse
          (env ∷ envs)
          (wire print (message_of row))
          s).dispatched
        ≡ s.dispatched ++ p ∷ [])
      × IsAskedFor dto p
unfolding deliver message_of params_of new_delivery
event_mailed_once dispatcher print parse env envs row dto s back named typed new asked created
      saved =
    let m = message_of row in
    let message = wire print m in
    let after = handle_message dispatcher parse env message s in
    let handled = wire-handled dispatcher print parse env m s back named typed new in
    let still =
      deliver_again dispatcher parse envs message after
        (λ later. handled_once dispatcher parse env later message s created saved) in
    let told = correlation_id_of (some (headers_of message)) in
    let grown =
      handle-dispatched dispatcher env m.event_id m.event_type told (event_payload m.payload) dto s
        created asked in
    (
      params_of (new_delivery env dto (meta_of m.event_id m.event_type told)),
      ap (λ t. t.dispatched) (still ∙ handled) ∙ grown,
      (refl, refl, refl),
    )
