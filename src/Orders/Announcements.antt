-- ===== src/Orders/Announcements.antt =====
-- The events of the order service, against the orders that they tell of.
use ecommerce_microservices.Common.{
  differs, String, ◌≡◌, refl, sym, ap, ◌∙◌, inl, inr, Option, some, List, [], ◌∷◌, ◌++◌, ◌==◌, find,
  subst, All, All-append, All-map, Result, ok, err,
}
use ecommerce_microservices.Orders.Entities.{
  Order, OrderStatus, Outbox, CreateOrderDto, JwtPayload, Store, OrderError, order_not_found,
  not_cancellable, access_denied, query_failed, Env,
}
use ecommerce_microservices.Orders.Validation.{Services}
use ecommerce_microservices.Orders.Repository.{find_by_id, set_status, outbox_row}
use ecommerce_microservices.Orders.Service.{CreatedOrder, create_order, cancel_order}
use ecommerce_microservices.Orders.Service.Creation.{CreateOutcome, create_order-CreateOutcome}
use ecommerce_microservices.Orders.Service.Cancelling.{
  CancelOutcome, with_status, cancelled_row, find-set_status, cancel_order-CancelOutcome,
}
use ecommerce_microservices.Orders.Inventory.{process}
use ecommerce_microservices.Orders.Inventory.Effects.{Announces, Settles, process-Settles}
use ecommerce_microservices.Orders.Histories.{
  IsLater, IsLater-trans, same, Follows, Step, Step-Follows, create, cancel, deliver, Reach, stop,
  after,
}

-- The order of a row is there, and has been in the state since.
abbrev pub HasReached : OrderStatus → List Order → Outbox → Type 0
HasReached status orders row =
    (o : Order) × (find (λ q. q.id == row.aggregate_id) orders ≡ some o) × IsLater status o.status

-- The event of a row is true.
abbrev pub IsTrue : List Order → Outbox → Type 0
IsTrue orders row =
    (row.event_type ≡ "OrderConfirmed" → HasReached OrderStatus.confirmed orders row)
    × (row.event_type ≡ "OrderCancelled" → HasReached OrderStatus.cancelled orders row)

abbrev pub IsTruthful : Store → Type 0
IsTruthful s = All (IsTrue s.orders) s.outbox

HasReached-Follows :
    (status : OrderStatus) (os os' : List Order) (row : Outbox)
    → Follows os os'
    → HasReached status os row
    → HasReached status os' row
HasReached-Follows status os os' row follows (o, found, reached) =
    let (o', there, (_, _, _, _, _, later)) = follows row.aggregate_id o found in
    (o', there, IsLater-trans reached later)

still-IsTrue :
    (os os' : List Order) (rows : List Outbox)
    → Follows os os'
    → All (IsTrue os) rows
    → All (IsTrue os') rows
still-IsTrue os os' rows follows h =
    All-map (IsTrue os) (IsTrue os') rows
      (λ row (told, cancels). (
        (λ e. HasReached-Follows OrderStatus.confirmed os os' row follows (told e)),
        (λ e. HasReached-Follows OrderStatus.cancelled os os' row follows (cancels e)),
      ))
      h

-- A row is added, and is true.
grown :
    (s s' : Store) (row : Outbox)
    → Follows s.orders s'.orders
    → s'.outbox ≡ s.outbox ++ row ∷ []
    → IsTrue s'.orders row
    → IsTruthful s
    → IsTruthful s'
grown s s' row follows added told truthful = subst (All (IsTrue s'.orders)) (sym added) (
    All-append (IsTrue s'.orders) s.outbox (row ∷ [])
      (still-IsTrue s.orders s'.orders s.outbox follows truthful) (told, tt))

kept :
    (s s' : Store)
    → Follows s.orders s'.orders
    → s'.outbox ≡ s.outbox
    → IsTruthful s
    → IsTruthful s'
kept s s' follows quiet truthful =
    subst (All (IsTrue s'.orders)) (sym quiet)
      (still-IsTrue s.orders s'.orders s.outbox follows truthful)

created-IsTruthful :
    (services : Services) (dto : CreateOrderDto) (s : Store)
    (r : Result OrderError CreatedOrder × Store)
    → CreateOutcome services dto s r
    → Follows s.orders r.1.orders
    → IsTruthful s
    → IsTruthful r.1
created-IsTruthful services dto s (err e, s') unchanged follows truthful =
    kept s s' follows (ap (λ t. t.outbox) unchanged) truthful
created-IsTruthful services dto s (ok c, s') (order, items, row, written, _, _, _, _, _, _, type, _)
      follows truthful =
    grown s s' row follows (ap (λ t. t.outbox) written)
      (
        (λ e. absurd (differs "OrderCreated" "OrderConfirmed" refl (sym type ∙ e))),
        (λ e. absurd (differs "OrderCreated" "OrderCancelled" refl (sym type ∙ e))),
      )
      truthful

module _ (env : Env) (id : String) (user : JwtPayload) (reason : Option String) (s : Store)
    (truthful : IsTruthful s) where
  cancelled_row-IsTrue :
      (order : Order)
      → find_by_id id s ≡ some order
      → IsTrue
          (with_status env id OrderStatus.cancelled s).orders
          (cancelled_row env id order user reason)
  unfolding outbox_row
  cancelled_row-IsTrue order found = (
    (λ e. absurd (differs "OrderCancelled" "OrderConfirmed" refl e)),
    (λ e. (
      set_status env OrderStatus.cancelled order,
      find-set_status env id OrderStatus.cancelled s order found,
      same,
    )),
  )

  cancelled-IsTruthful :
      (r : Result OrderError Order × Store)
      → CancelOutcome env id user reason s r
      → Follows s.orders r.1.orders
      → IsTruthful r.1
  cancelled-IsTruthful (ok o, s') (order, (found, _, _), _, written) follows =
      grown s s' (cancelled_row env id order user reason) follows (ap (λ t. t.outbox) written)
        (subst (λ t. IsTrue t.orders (cancelled_row env id order user reason)) (sym written)
          (cancelled_row-IsTrue order found))
        truthful
  cancelled-IsTruthful (err (order_not_found _), s') (missing, e) follows =
      kept s s' follows (ap (λ t. t.outbox) e) truthful
  cancelled-IsTruthful (err access_denied, s') (_, _, _, e) follows =
      kept s s' follows (ap (λ t. t.outbox) e) truthful
  cancelled-IsTruthful (err (not_cancellable _ _), s') (_, _, _, _, _, e) follows =
      kept s s' follows (ap (λ t. t.outbox) e) truthful
  cancelled-IsTruthful (err query_failed, s') (order, _, inl (_, e)) follows =
      kept s s' follows (ap (λ t. t.outbox) e) truthful
  cancelled-IsTruthful (err query_failed, s') (order, _, inr (_, e)) follows =
      kept s s' follows (ap (λ t. t.outbox) e) truthful
  cancelled-IsTruthful (err _, s') h follows = absurd h

moved-IsTrue :
    (env : Env) (s : Store) (id : String) (status : OrderStatus) (event_type : String)
    (order : Order) (row : Outbox)
    → Announces event_type status
    → find_by_id id s ≡ some order
    → row.aggregate_id ≡ id
    → row.event_type ≡ event_type
    → IsTrue (with_status env id status s).orders row
moved-IsTrue env s id status event_type order row announced found aggregate type =
    let there : find (λ q. q.id == row.aggregate_id) (with_status env id status s).orders
        ≡ some (set_status env status order) =
      ap (λ k. find (λ q. q.id == k) (with_status env id status s).orders) aggregate
      ∙ find-set_status env id status s order found in
    elim announced [
      | inl (confirms, e) ↦ (
        (λ h. (
          set_status env status order,
          there,
          subst (IsLater OrderStatus.confirmed) (sym e) same,
        )),
        (λ h.
            absurd (differs "OrderConfirmed" "OrderCancelled" refl (sym confirms ∙ sym type ∙ h))),
      )
      | inr (cancels, e) ↦ (
        (λ h. absurd (differs "OrderCancelled" "OrderConfirmed" refl (sym cancels ∙ sym type ∙ h))),
        (λ h. (
          set_status env status order,
          there,
          subst (IsLater OrderStatus.cancelled) (sym e) same,
        )),
      )
    ]

settled-IsTruthful :
    (env : Env) (s s' : Store)
    → Settles env s s'
    → Follows s.orders s'.orders
    → IsTruthful s
    → IsTruthful s'
settled-IsTruthful env s s' (inl (_, quiet)) follows truthful = kept s s' follows quiet truthful
settled-IsTruthful env s s'
      (inr (id, status, event_type, order, announced, found, pending, moved, inl quiet)) follows
      truthful =
    kept s s' follows quiet truthful
settled-IsTruthful env s s'
      (inr (
        id,
        status,
        event_type,
        order,
        announced,
        found,
        pending,
        moved,
        inr (row, aggregate, type, added),
      ))
      follows truthful =
    grown s s' row follows added
      (subst (λ os. IsTrue os row) (sym moved)
        (moved-IsTrue env s id status event_type order row announced found aggregate type))
      truthful

Step-IsTruthful : {s s' : Store} → Step s s' → IsTruthful s → IsTruthful s'
Step-IsTruthful (create services is_uuid env dto correlation_id s) truthful =
    created-IsTruthful services dto s (create_order services is_uuid env dto correlation_id s)
      (create_order-CreateOutcome services is_uuid env dto correlation_id s)
      (Step-Follows (create services is_uuid env dto correlation_id s)) truthful
Step-IsTruthful (cancel env id user reason s) truthful =
    cancelled-IsTruthful env id user reason s truthful (cancel_order env id user reason s)
      (cancel_order-CancelOutcome env id user reason s) (Step-Follows (cancel env id user reason s))
Step-IsTruthful (deliver ttl env message headers s) truthful =
    settled-IsTruthful env s (process ttl env message headers s)
      (process-Settles ttl env message headers s) (Step-Follows (deliver ttl env message headers s))
      truthful

-- Through any sequence of calls of createOrder and cancelOrder and of messages of the inventory,
-- whatever fails: if every row of the outbox was true before, every row is true after. A row is
-- true if an order that it announces as confirmed or as cancelled is there and has come to that
-- state.
pub Reach-IsTruthful : {s s' : Store} (history : Reach s s') → IsTruthful s → IsTruthful s'
Reach-IsTruthful stop truthful = truthful
Reach-IsTruthful (after step rest) truthful = Reach-IsTruthful rest (Step-IsTruthful step truthful)
