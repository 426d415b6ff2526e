-- ===== src/Orders/Inventory.antt =====
-- order-service/src/modules/kafka/inventory-event.processor.service.ts. A message is given as
-- `JSON.parse` reads it.
pub mod Delivery
pub mod Effects
pub mod Consumer
use ecommerce_microservices.Common.{
  ℕ, ◌+◌, String, Bool, true, false, not, Option, none, some, List, [], ◌∷◌, ◌++◌, if◌then◌else◌,
  ltb, get_or, or_else, or_text, truthy, lookup, any, find, filter, ◌==◌, ◌||◌, pure, gets, modify,
  throw_if, ◌>>=◌, ◌>>◌,
}
use ecommerce_microservices.Orders.Entities.{
  Order, OrderStatus, Payload, order_confirmed, order_cancelled, Headers, ProcessedEvent, Store,
  query_failed, Env, Call,
}
use ecommerce_microservices.Orders.Repository.{same_status, find_by_id, update_status, create_entry}

-- The fields of both events.
pub record InventoryEvent : Type 0 where
  pub event_type : Option String
  pub event_id : Option String
  pub order_id : String
  pub correlation_id : Option String
  pub reason : Option String

-- `headers?.[key]`
header : Option (List (String × String)) → String → Option String
header none key = none
header (some headers) key = lookup key headers

unfoldable pub event_type_of : Option (List (String × String)) → InventoryEvent → Option String
unfolding header
event_type_of headers event = or_else (truthy event.event_type) (header headers "event-type")

unfoldable pub event_id_of : Option (List (String × String)) → InventoryEvent → Option String
unfolding header
event_id_of headers event = truthy (or_else (truthy event.event_id) (header headers "event-id"))

unfoldable pub event_headers : Env → InventoryEvent → Order → Headers
event_headers env event order = record {
  correlation_id = or_else (truthy event.correlation_id) order.correlation_id;
  event_id = env.event_id;
}

unfoldable pub confirmed_payload : InventoryEvent → Order → Payload
confirmed_payload event order =
    order_confirmed event.order_id order.order_number order.customer_user_id order.total_amount
      order.currency

unfoldable pub failed_payload : InventoryEvent → Order → Payload
failed_payload event order =
    order_cancelled event.order_id order.order_number order.customer_user_id
      (or_text event.reason "Inventory reservation failed") none

-- What both handlers do: an order that is still pending moves on, and an event tells of it.
unfoldable pub settle :
    Env → InventoryEvent → OrderStatus → String → (Order → Payload) → Call (Unit {0})
settle env event status event_type payload_of s = elim (find_by_id event.order_id s) [
  | none ↦ pure tt s
  | some order ↦
      if same_status order.status OrderStatus.pending
      then (update_status env event.order_id status >>= λ _.
            create_entry env event.order_id event_type (payload_of order)
              (event_headers env event order))
          s
      else pure tt s
]

unfoldable pub handle_inventory_reserved : Env → InventoryEvent → Call (Unit {0})
unfolding settle
handle_inventory_reserved env event =
    settle env event OrderStatus.confirmed "OrderConfirmed" (confirmed_payload event)

unfoldable pub handle_inventory_reservation_failed : Env → InventoryEvent → Call (Unit {0})
unfolding settle
handle_inventory_reservation_failed env event =
    settle env event OrderStatus.cancelled "OrderCancelled" (failed_payload event)

-- The row of an event that has expired is removed.
unfoldable pub is_event_processed : Env → String → Call Bool
is_event_processed env event_id s = elim (find (λ e. e.event_id == event_id) s.processed_events) [
  | none ↦ pure false s
  | some found ↦
      if ltb found.expires_at env.now
      then (throw_if (not env.event_removed) query_failed
            >> modify (λ s. record s {
              processed_events = filter (λ e. not (e.event_id == event_id)) s.processed_events;
            })
            >> pure false)
          s
      else pure true s
]

-- The column `event_id` is unique and `event_type` may not be null. A failure is dropped.
unfoldable pub mark_event_processed : ℕ → Env → String → Option String → Store → Store
mark_event_processed ttl env event_id none s = s
mark_event_processed ttl env event_id (some event_type) s =
    if not env.event_saved || any (λ e. e.event_id == event_id) s.processed_events
    then s
    else record s {
      processed_events =
          s.processed_events
          ++ record {
            event_id = event_id;
            event_type = event_type;
            processed_at = env.now;
            expires_at = env.now + ttl;
          }
            ∷ [];
    }

-- The `switch` on the event's type.
unfoldable pub dispatch : Env → Option String → InventoryEvent → Call (Unit {0})
unfolding handle_inventory_reserved handle_inventory_reservation_failed
dispatch env event_type event =
    let name = get_or event_type "" in
    if name == "InventoryReserved"
    then handle_inventory_reserved env event
    else if name == "InventoryReservationFailed"
    then handle_inventory_reservation_failed env event
    else pure tt

-- The body of the `try`, for an event with an identifier.
unfoldable pub process_event : ℕ → Env → String → Option String → InventoryEvent → Call (Unit {0})
unfolding is_event_processed dispatch mark_event_processed
process_event ttl env event_id event_type event = is_event_processed env event_id >>= λ processed.
    if processed
    then pure tt
    else dispatch env event_type event >> modify (mark_event_processed ttl env event_id event_type)

-- An error ends the call, and is logged.
unfoldable pub process :
    ℕ → Env → Option InventoryEvent → Option (List (String × String)) → Store → Store
unfolding event_id_of event_type_of process_event
process ttl env none headers s = s
process ttl env (some event) headers s = elim (event_id_of headers event) [
  | none ↦ s
  | some event_id ↦ (process_event ttl env event_id (event_type_of headers event) event s).1
]
