-- ===== src/Orders/Inventory/Delivery.antt =====
-- Repeated deliveries to order-service/src/modules/kafka/inventory-event.processor.service.ts.
use ecommerce_microservices.Common.{
  ℕ, ◌+◌, ◌≤◌, String, true, false, ◌≡◌, refl, sym, ap, Option, none, some, List, [], ◌∷◌, arith,
  ◌==◌, find, any-none, find-append_none, eq_refl, subst, ok,
}
use ecommerce_microservices.Orders.Entities.{
  Order, OrderStatus, ProcessedEvent, Payload, Store, Env,
}
use ecommerce_microservices.Orders.Repository.{
  same_status, find_by_id, set_status, update_status, create_entry,
}
use ecommerce_microservices.Orders.Service.Cancelling.{with_status, find-set_status}
use ecommerce_microservices.Orders.Inventory.{
  InventoryEvent, confirmed_payload, failed_payload, settle, handle_inventory_reserved,
  handle_inventory_reservation_failed, is_event_processed, mark_event_processed, dispatch,
  process_event, event_id_of, event_type_of, process,
}

-- Every write goes through.
abbrev pub IsHealthy : Env → Type 0
IsHealthy env = (env.order_updated ≡ true) × (env.outbox_saved ≡ true) × (env.event_saved ≡ true)

abbrev pub find_event : String → Store → Option ProcessedEvent
find_event event_id s = find (λ e. e.event_id == event_id) s.processed_events

settle-keeps :
    (env : Env) (event : InventoryEvent) (status : OrderStatus) (event_type : String)
    (payload_of : Order → Payload) (s : Store)
    → IsHealthy env
    → ((settle env event status event_type payload_of s).0 ≡ ok tt)
      × ((settle env event status event_type payload_of s).1.processed_events ≡ s.processed_events)
unfolding settle update_status create_entry
settle-keeps env event status event_type payload_of s (updated, saved, _) = ground arith

dispatch-keeps :
    (env : Env) (event_type : Option String) (event : InventoryEvent) (s : Store)
    → IsHealthy env
    → ((dispatch env event_type event s).0 ≡ ok tt)
      × ((dispatch env event_type event s).1.processed_events ≡ s.processed_events)
unfolding dispatch handle_inventory_reserved handle_inventory_reservation_failed
dispatch-keeps env event_type event s healthy =
    let reserved =
      settle-keeps env event OrderStatus.confirmed "OrderConfirmed" (confirmed_payload event) s
        healthy in
    let failed =
      settle-keeps env event OrderStatus.cancelled "OrderCancelled" (failed_payload event) s
        healthy in
    ground arith

seen-process_event :
    (ttl : ℕ) (env : Env) (event_id : String) (event_type : Option String) (event : InventoryEvent)
    (s : Store) (row : ProcessedEvent)
    → find_event event_id s ≡ some row
    → env.now ≤ row.expires_at
    → process_event ttl env event_id event_type event s ≡ (ok tt, s)
unfolding process_event is_event_processed
seen-process_event ttl env event_id event_type event s row found live = ground arith

-- The row of an event that is processed.
abbrev processed_row : ℕ → Env → String → String → ProcessedEvent
processed_row ttl env event_id event_type = record {
  event_id = event_id;
  event_type = event_type;
  processed_at = env.now;
  expires_at = env.now + ttl;
}

mark-found :
    (ttl : ℕ) (env : Env) (event_id event_type : String) (s : Store)
    → env.event_saved ≡ true
    → find_event event_id s ≡ none
    → find_event event_id (mark_event_processed ttl env event_id (some event_type) s)
      ≡ some (processed_row ttl env event_id event_type)
unfolding mark_event_processed
mark-found ttl env event_id event_type s saved unseen =
    let row = processed_row ttl env event_id event_type in
    let free = any-none (λ e. e.event_id == event_id) s.processed_events unseen in
    let last =
      find-append_none (λ e. e.event_id == event_id) s.processed_events (row ∷ []) unseen in
    let own = eq_refl event_id in ground arith

new-process_event :
    (ttl : ℕ) (env : Env) (event_id event_type : String) (event : InventoryEvent) (s : Store)
    → IsHealthy env
    → find_event event_id s ≡ none
    → (process_event ttl env event_id (some event_type) event s).1
      ≡ mark_event_processed ttl env event_id
          (some event_type)
          (dispatch env (some event_type) event s).1
unfolding process_event is_event_processed
new-process_event ttl env event_id event_type event s healthy unseen =
    let kept = dispatch-keeps env (some event_type) event s healthy in ground arith

-- A message with an identifier and a type, not processed before, whose writes all go through,
-- changes nothing when it is delivered again while its row lives.
pub process_twice :
    (ttl : ℕ) (env later : Env) (event : InventoryEvent) (headers : Option (List (String × String)))
    (s : Store) (event_id event_type : String)
    → event_id_of headers event ≡ some event_id
    → event_type_of headers event ≡ some event_type
    → IsHealthy env
    → find_event event_id s ≡ none
    → later.now ≤ env.now + ttl
    → process ttl later (some event) headers (process ttl env (some event) headers s)
      ≡ process ttl env (some event) headers s
unfolding process
process_twice ttl env later event headers s event_id event_type given typed healthy unseen live =
    let (_, _, saved) = healthy in
    let handled = (dispatch env (some event_type) event s).1 in
    let kept = dispatch-keeps env (some event_type) event s healthy in
    let step = new-process_event ttl env event_id event_type event s healthy unseen in
    let first : process ttl env (some event) headers s
        ≡ mark_event_processed ttl env event_id (some event_type) handled =
      rw (given, process, typed) step in
    let found =
      mark-found ttl env event_id event_type handled saved
        (subst (λ x. find (λ e. e.event_id == event_id) x ≡ none) (sym kept.1) unseen) in
    subst (λ t. process ttl later (some event) headers t ≡ t) (sym first)
      (rw (given, process, typed)
        (ap (λ r. r.1)
          (seen-process_event ttl later event_id (some event_type) event
            (mark_event_processed ttl env event_id (some event_type) handled)
            (processed_row ttl env event_id event_type) found live)))

failed_confirmation :
    (ttl : ℕ) (env : Env) (event_id : String) (event : InventoryEvent) (s : Store) (order : Order)
    → find_event event_id s ≡ none
    → find_by_id event.order_id s ≡ some order
    → order.status ≡ OrderStatus.pending
    → env.order_updated ≡ true
    → env.outbox_saved ≡ false
    → (process_event ttl env event_id (some "InventoryReserved") event s).1
      ≡ with_status env event.order_id OrderStatus.confirmed s
unfolding process_event is_event_processed dispatch handle_inventory_reserved settle update_status
    create_entry
failed_confirmation ttl env event_id event s order unseen found pending updated refused =
    let is_pending : same_status order.status OrderStatus.pending ≡ true = rw pending in
    ground arith

repeated_confirmation :
    (ttl : ℕ) (env : Env) (event_id : String) (event : InventoryEvent) (s : Store) (order : Order)
    → find_event event_id s ≡ none
    → find_by_id event.order_id s ≡ some order
    → same_status order.status OrderStatus.pending ≡ false
    → (process_event ttl env event_id (some "InventoryReserved") event s).1.outbox ≡ s.outbox
unfolding process_event is_event_processed dispatch handle_inventory_reserved settle
    mark_event_processed
repeated_confirmation ttl env event_id event s order unseen found other = ground arith

-- If a message of a reservation, not processed before, confirms a pending order and the row of the
-- event cannot be saved, the order stays confirmed, and a second delivery of the message does not
-- write the event either.
pub confirmation_lost :
    (ttl : ℕ) (env later : Env) (event : InventoryEvent) (headers : Option (List (String × String)))
    (s : Store) (event_id : String) (order : Order)
    → event_id_of headers event ≡ some event_id
    → event_type_of headers event ≡ some "InventoryReserved"
    → find_event event_id s ≡ none
    → find_by_id event.order_id s ≡ some order
    → order.status ≡ OrderStatus.pending
    → env.order_updated ≡ true
    → env.outbox_saved ≡ false
    → let s' = process ttl env (some event) headers s in
      (s' ≡ with_status env event.order_id OrderStatus.confirmed s)
      × ((process ttl later (some event) headers s').outbox ≡ s.outbox)
unfolding process
confirmation_lost ttl env later event headers s event_id order given typed unseen found pending
      updated refused =
    let confirmed = with_status env event.order_id OrderStatus.confirmed s in
    let first : process ttl env (some event) headers s ≡ confirmed =
      rw (given, process, typed)
        (failed_confirmation ttl env event_id event s order unseen found pending updated refused) in
    (
      first,
      subst (λ t. (process ttl later (some event) headers t).outbox ≡ s.outbox) (sym first)
          (rw (given, process, typed)
            (repeated_confirmation ttl later event_id event confirmed
              (set_status env OrderStatus.confirmed order) unseen
              (find-set_status env event.order_id OrderStatus.confirmed s order found) refl)),
    )
