-- ===== src/Notifications/Processor.antt =====
-- notification-service/src/modules/kafka/kafka-event.processor.service.ts. A message is given as
-- `JSON.parse` reads it.
pub mod Once
use ecommerce_microservices.Common.{
  ℕ, String, Bool, true, false, not, Option, none, some, List, [], ◌∷◌, ◌++◌, if◌then◌else◌, get_or,
  or_else, truthy, lookup, ◌==◌, ◌&&◌, ◌||◌, any, filter, Result, ok, err, pure, gets, modify,
  throw_if, ◌>>=◌, ◌>>◌, drop_state,
}
use ecommerce_microservices.Common.Text.{template, join}
use ecommerce_microservices.Notifications.Entities.{
  NotificationKind, CreateNotificationDto, ProcessedEvent, Store, query_failed, Env, Call,
}
use ecommerce_microservices.Notifications.Dispatcher.{Dispatcher}
use ecommerce_microservices.Notifications.Service.{EventMeta, create_and_dispatch}

-- The fields of a payload that are read; an amount as it is printed.
pub record EventPayload : Type 0 where
  pub recipient_email : Option String
  pub order_id : Option String
  pub order_number : Option String
  pub total_amount : Option String
  pub currency : Option String
  pub reason : Option String

pub record Message : Type 0 where
  pub event_id : Option String
  pub event_type : Option String
  pub payload : Option EventPayload
  pub flat : EventPayload

abbrev pub Headers : Type 0
Headers = Option (List (String × String))

-- `headers?.[key]`
header : Headers → String → Option String
header none key = none
header (some headers) key = lookup key headers

unfoldable pub event_id_of : Headers → Message → Option String
unfolding header
event_id_of headers parsed =
    truthy
      (or_else (header headers "event-id") (or_else (header headers "eventId") parsed.event_id))

unfoldable pub event_type_of : Headers → Message → Option String
unfolding header
event_type_of headers parsed =
    truthy (
      or_else (header headers "event-type")
        (or_else (header headers "eventType") parsed.event_type))

unfoldable pub correlation_id_of : Headers → Option String
unfolding header
correlation_id_of headers =
    or_else (header headers "correlation-id") (header headers "correlationId")

-- `.filter(Boolean).join(' ')`
unfoldable pub sentences : List String → String
sentences parts = join " " (filter (λ s. not (s == "")) parts)

unfoldable pub mail : EventPayload → String → String → CreateNotificationDto
mail payload subject body = record {
  kind = NotificationKind.email;
  recipient = get_or payload.recipient_email "customer@example.com";
  channel = "email";
  subject = some subject;
  body = body;
}

abbrev order_id_of : EventPayload → String
order_id_of payload = get_or payload.order_id "unknown"

unfoldable pub on_order_created : EventPayload → CreateNotificationDto
unfolding mail sentences
on_order_created payload =
    let order_number = get_or payload.order_number (order_id_of payload) in
    mail payload (template ("Order " ∷ order_number ∷ " Received" ∷ [])) (
      sentences (
        template ("Your order " ∷ order_number ∷ " has been received." ∷ [])
        ∷ elim payload.total_amount [
          | none ↦ ""
          | some amount ↦ template ("Total: " ∷ amount ∷ " " ∷ get_or payload.currency "USD" ∷ [])
        ]
        ∷ "We will notify you once it is confirmed."
        ∷ []))

unfoldable pub on_order_confirmed : EventPayload → CreateNotificationDto
unfolding mail
on_order_confirmed payload =
    mail payload (template ("Order " ∷ order_id_of payload ∷ " Confirmed" ∷ [])) (
      template (
        "Your order "
        ∷ order_id_of payload
        ∷ " has been confirmed. Thank you for your purchase!"
        ∷ []))

unfoldable pub on_order_cancelled : EventPayload → CreateNotificationDto
unfolding mail sentences
on_order_cancelled payload =
    mail payload (template ("Order " ∷ order_id_of payload ∷ " Cancelled" ∷ [])) (
      sentences (
        template ("Your order " ∷ order_id_of payload ∷ " has been cancelled." ∷ [])
        ∷ elim (truthy payload.reason) [
          | none ↦ ""
          | some reason ↦ template ("Reason: " ∷ reason ∷ [])
        ]
        ∷ "If you were charged, a refund will be processed shortly."
        ∷ []))

unfoldable pub on_inventory_reservation_failed : EventPayload → CreateNotificationDto
unfolding mail
on_inventory_reservation_failed payload =
    mail payload (template ("Order " ∷ order_id_of payload ∷ " Could Not Be Completed" ∷ [])) (
      template (
        "We're sorry, but we could not complete your order "
        ∷ order_id_of payload
        ∷ " due to inventory issues. Your payment has been refunded."
        ∷ []))

-- The `switch` on the event's type: the notification that an event asks for, if any.
unfoldable pub notification_for : String → EventPayload → Option CreateNotificationDto
unfolding on_order_created on_order_confirmed on_order_cancelled on_inventory_reservation_failed
notification_for event_type payload =
    if event_type == "OrderCreated"
    then some (on_order_created payload)
    else if event_type == "OrderConfirmed"
    then some (on_order_confirmed payload)
    else if event_type == "OrderCancelled"
    then some (on_order_cancelled payload)
    else if event_type == "InventoryReservationFailed"
    then some (on_inventory_reservation_failed payload)
    else none

unfoldable pub exists_by_event_id_and_type : String → String → Store → Bool
exists_by_event_id_and_type event_id event_type s =
    any (λ e. e.event_id == event_id && e.event_type == event_type) s.processed_events

-- The pair of identifier and type is unique.
unfoldable pub mark_processed : Env → ProcessedEvent → Call (Unit {0})
mark_processed env event = do
  taken ← gets (exists_by_event_id_and_type event.event_id event.event_type)
  throw_if (not env.event_saved || taken) query_failed
  modify (λ s. record s { processed_events = s.processed_events ++ event ∷ [] })

abbrev pub meta_of : String → String → Option String → EventMeta
meta_of event_id event_type correlation_id = record {
  event_id = some event_id;
  event_type = some event_type;
  correlation_id = correlation_id;
}

module _ (dispatcher : Dispatcher) (env : Env) where
  -- The body of the `try`. An event of another type is not marked.
  unfoldable pub handle : String → String → Option String → EventPayload → Call (Unit {0})
  unfolding mark_processed notification_for
  handle event_id event_type correlation_id payload = elim (notification_for event_type payload) [
    | none ↦ pure tt
    | some dto ↦ do
      delivery ← create_and_dispatch dispatcher env dto (meta_of event_id event_type correlation_id)
      mark_processed env
          (record { event_id = event_id; event_type = event_type; correlation_id = correlation_id })
  ]

  -- An error ends the call, and is logged.
  unfoldable pub process : Headers → Option Message → Store → Store
  unfolding event_id_of event_type_of correlation_id_of exists_by_event_id_and_type handle
  process headers none s = s
  process headers (some parsed) s = elim (event_id_of headers parsed) [
    | none ↦ s
    | some event_id ↦ elim (event_type_of headers parsed) [
      | none ↦ s
      | some event_type ↦
          if exists_by_event_id_and_type event_id event_type s
          then s
          else (handle event_id event_type (correlation_id_of headers)
              (get_or parsed.payload parsed.flat) s).1
    ]
  ]
