-- ===== src/Orders/Inventory/Effects.antt =====
-- What order-service/src/modules/kafka/inventory-event.processor.service.ts does to the orders and to
-- the outbox.
use ecommerce_microservices.Common.{
  ℕ, String, Bool, true, false, ◌≡◌, refl, ap, ◌∙◌, ◌⊎◌, inl, inr, Option, none, some, List, [],
  ◌∷◌, ◌++◌, arith, ◌==◌, if◌then◌else◌, find, update_where, subst, Result, ok, err, pure, modify,
  ◌>>=◌, ◌>>◌, Bool-cases, Option-cases, get_or,
}
use ecommerce_microservices.Orders.Entities.{
  Order, OrderStatus, Outbox, Payload, Store, OrderError, Env,
}
use ecommerce_microservices.Orders.Repository.{
  same_status, find_by_id, set_status, update_status, outbox_row, create_entry,
}
use ecommerce_microservices.Orders.Inventory.{
  InventoryEvent, event_headers, confirmed_payload, failed_payload, settle, is_event_processed,
  mark_event_processed, dispatch, process_event, event_id_of, event_type_of, process,
}

-- The event that tells of a status.
abbrev pub Announces : String → OrderStatus → Type 0
Announces event_type status =
    ((event_type ≡ "OrderConfirmed") × (status ≡ OrderStatus.confirmed))
    ⊎ ((event_type ≡ "OrderCancelled") × (status ≡ OrderStatus.cancelled))

abbrev pub IsQuiet : Store → Store → Type 0
IsQuiet s s' = (s'.orders ≡ s.orders) × (s'.outbox ≡ s.outbox)

-- One pending order moves on, and at most one event tells of it.
abbrev pub Moves : Env → Store → Store → Type 0
Moves env s s' =
    (id : String) × (status : OrderStatus) × (event_type : String) × (order : Order) × Announces
      event_type status
    × (find_by_id id s ≡ some order)
    × (order.status ≡ OrderStatus.pending)
    × (s'.orders ≡ update_where (λ o. o.id == id) (set_status env status) s.orders)
    × ((s'.outbox ≡ s.outbox)
        ⊎ ((row : Outbox) × (row.aggregate_id ≡ id)
            × (row.event_type ≡ event_type)
            × (s'.outbox ≡ s.outbox ++ row ∷ [])))

abbrev pub Settles : Env → Store → Store → Type 0
Settles env s s' = IsQuiet s s' ⊎ Moves env s s'

is_pending :
    (status : OrderStatus)
    → same_status status OrderStatus.pending ≡ true
    → status ≡ OrderStatus.pending
is_pending status h = ground arith

settle-Settles :
    (env : Env) (event : InventoryEvent) (status : OrderStatus) (event_type : String)
    (payload_of : Order → Payload) (s : Store)
    → Announces event_type status
    → Settles env s (settle env event status event_type payload_of s).1
unfolding settle update_status create_entry outbox_row
settle-Settles env event status event_type payload_of s announced =
    let s' = (settle env event status event_type payload_of s).1 in
    elim (Option-cases (find_by_id event.order_id s)) [
      | inl missing ↦
          let r : s' ≡ s = ground arith in inl (ap (λ t. t.orders) r, ap (λ t. t.outbox) r)
      | inr (order, found) ↦ elim (Bool-cases (same_status order.status OrderStatus.pending)) [
        | inr other ↦
            let r : s' ≡ s = ground arith in inl (ap (λ t. t.orders) r, ap (λ t. t.outbox) r)
        | inl pending ↦ elim (Bool-cases env.order_updated) [
          | inr failed ↦
              let r : s' ≡ s = ground arith in inl (ap (λ t. t.orders) r, ap (λ t. t.outbox) r)
          | inl done ↦
              let moved : s'.orders
                  ≡ update_where (λ o. o.id == event.order_id) (set_status env status) s.orders =
                ground arith in
              inr (
                event.order_id,
                status,
                event_type,
                order,
                announced,
                found,
                is_pending order.status pending,
                moved,
                elim (Bool-cases env.outbox_saved) [
                  | inr failed ↦ inl (ground arith)
                  | inl saved ↦ inr (
                    outbox_row env event.order_id event_type (payload_of order)
                        (event_headers env event order),
                    refl,
                    refl,
                    ground arith,
                  )
                ],
              )
        ]
      ]
    ]

dispatch-Settles :
    (env : Env) (event_type : Option String) (event : InventoryEvent) (s : Store)
    → Settles env s (dispatch env event_type event s).1
unfolding dispatch
dispatch-Settles env event_type event s =
    elim (Bool-cases (get_or event_type "" == "InventoryReserved")) [
      | inl reserved ↦
          rw (reserved, dispatch)
            (settle-Settles env event OrderStatus.confirmed "OrderConfirmed"
              (confirmed_payload event) s (inl (refl, refl)))
      | inr other ↦ elim (Bool-cases (get_or event_type "" == "InventoryReservationFailed")) [
        | inl failed ↦
            rw (other, dispatch, failed)
              (settle-Settles env event OrderStatus.cancelled "OrderCancelled"
                (failed_payload event) s (inr (refl, refl)))
        | inr unknown ↦ rw (other, dispatch, unknown) (inl (refl, refl))
      ]
    ]

-- The rows of the processed events are no part of it.
checked-IsQuiet :
    (env : Env) (event_id : String) (s : Store) → IsQuiet s (is_event_processed env event_id s).1
unfolding is_event_processed
checked-IsQuiet env event_id s = ground arith

marked-IsQuiet :
    (ttl : ℕ) (env : Env) (event_id : String) (event_type : Option String) (s : Store)
    → IsQuiet s (mark_event_processed ttl env event_id event_type s)
unfolding mark_event_processed
marked-IsQuiet ttl env event_id none s = (refl, refl)
marked-IsQuiet ttl env event_id (some event_type) s = ground arith

around :
    (env : Env) (s t u v : Store) → IsQuiet s t → Settles env t u → IsQuiet u v → Settles env s v
around env s t u v (os, rs) (inl (os2, rs2)) (os3, rs3) = inl (os3 ∙ os2 ∙ os, rs3 ∙ rs2 ∙ rs)
around env s t u v (os, rs)
      (inr (id, status, event_type, order, announced, found, pending, moved, told)) (os3, rs3) =
    inr (
      id,
      status,
      event_type,
      order,
      announced,
      subst (λ x. find (λ o. o.id == id) x ≡ some order) os found,
      pending,
      os3 ∙ moved ∙ ap (update_where (λ o. o.id == id) (set_status env status)) os,
      elim told [
        | inl silent ↦ inl (rs3 ∙ silent ∙ rs)
        | inr (row, aggregate, type, added) ↦
            inr (row, aggregate, type, rs3 ∙ added ∙ ap (λ x. x ++ row ∷ []) rs)
      ],
    )

handled-Settles :
    (ttl : ℕ) (env : Env) (event_id : String) (event_type : Option String) (s t : Store)
    (handled : Result OrderError (Unit {0}) × Store)
    → IsQuiet s t
    → Settles env t handled.1
    → Settles env s
        (((λ u. handled) >> modify (mark_event_processed ttl env event_id event_type)) t).1
handled-Settles ttl env event_id event_type s t (err e, u) quiet settled =
    around env s t u u quiet settled (refl, refl)
handled-Settles ttl env event_id event_type s t (ok _, u) quiet settled =
    around env s t u (mark_event_processed ttl env event_id event_type u) quiet settled
      (marked-IsQuiet ttl env event_id event_type u)

checked-Settles :
    (ttl : ℕ) (env : Env) (event_id : String) (event_type : Option String) (event : InventoryEvent)
    (s : Store) (checked : Result OrderError Bool × Store)
    → IsQuiet s checked.1
    → Settles env s
        (((λ u. checked) >>= λ processed.
            if processed
            then pure tt
            else dispatch env event_type event
              >> modify (mark_event_processed ttl env event_id event_type))
          s).1
checked-Settles ttl env event_id event_type event s (err e, t) quiet = inl quiet
checked-Settles ttl env event_id event_type event s (ok true, t) quiet = inl quiet
checked-Settles ttl env event_id event_type event s (ok false, t) quiet =
    handled-Settles ttl env event_id event_type s t (dispatch env event_type event t) quiet
      (dispatch-Settles env event_type event t)

process_event-Settles :
    (ttl : ℕ) (env : Env) (event_id : String) (event_type : Option String) (event : InventoryEvent)
    (s : Store)
    → Settles env s (process_event ttl env event_id event_type event s).1
unfolding process_event
process_event-Settles ttl env event_id event_type event s =
    checked-Settles ttl env event_id event_type event s (is_event_processed env event_id s)
      (checked-IsQuiet env event_id s)

-- A message of the inventory moves at most one order, which is pending before.
pub process-Settles :
    (ttl : ℕ) (env : Env) (message : Option InventoryEvent)
    (headers : Option (List (String × String))) (s : Store)
    → Settles env s (process ttl env message headers s)
unfolding process
process-Settles ttl env none headers s = inl (refl, refl)
process-Settles ttl env (some event) headers s = elim (Option-cases (event_id_of headers event)) [
  | inl missing ↦ rw (missing, process) (inl (refl, refl))
  | inr (event_id, given) ↦
      rw (given, process)
        (process_event-Settles ttl env event_id (event_type_of headers event) event s)
]
