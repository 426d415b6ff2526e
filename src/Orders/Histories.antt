-- ===== src/Orders/Histories.antt =====
-- Any sequence of the order service's operations: how an order moves between its states.
use ecommerce_microservices.Common.{
  ℕ, ◌≤◌, String, Bool, true, ◌≡◌, refl, sym, ap, ◌∙◌, inl, inr, Option, some, List, [], ◌∷◌, ◌++◌,
  arith, ◌==◌, find, find_sound, find-append_some, find-update_where, update_where, eq_iff, subst,
  Result, ok, err, Bool-cases, get_or,
}
use ecommerce_microservices.Orders.Entities.{
  Order, OrderStatus, CreateOrderDto, JwtPayload, Store, OrderError, order_not_found,
  not_cancellable, access_denied, query_failed, Env,
}
use ecommerce_microservices.Orders.Validation.{Services}
use ecommerce_microservices.Orders.Repository.{find_by_id, set_status}
use ecommerce_microservices.Orders.Service.{
  is_cancellable, CreatedOrder, create_order, cancel_order,
}
use ecommerce_microservices.Orders.Service.Creation.{CreateOutcome, create_order-CreateOutcome}
use ecommerce_microservices.Orders.Service.Cancelling.{
  CancelOutcome, with_status, cancel_order-CancelOutcome,
}
use ecommerce_microservices.Orders.Inventory.{InventoryEvent, process}
use ecommerce_microservices.Orders.Inventory.Effects.{Announces, Settles, process-Settles}

-- The states that an order may be in later.
pub data IsLater : OrderStatus → OrderStatus → Type 0 where
  same : {s : OrderStatus} → IsLater s s
  confirmed : IsLater OrderStatus.pending OrderStatus.confirmed
  rejected : IsLater OrderStatus.pending OrderStatus.cancelled
  cancelled : IsLater OrderStatus.confirmed OrderStatus.cancelled

pub IsLater-trans : {a b c : OrderStatus} → IsLater a b → IsLater b c → IsLater a c
IsLater-trans same k = k
IsLater-trans confirmed same = confirmed
IsLater-trans confirmed cancelled = rejected
IsLater-trans rejected same = rejected
IsLater-trans cancelled same = cancelled

-- What an order keeps, and what may change.
abbrev pub Evolves : Order → Order → Type 0
Evolves o o' =
    (o'.id ≡ o.id)
    × (o'.order_number ≡ o.order_number)
    × (o'.customer_user_id ≡ o.customer_user_id)
    × (o'.total_amount ≡ o.total_amount)
    × (o.version ≤ o'.version)
    × IsLater o.status o'.status

Evolves-refl : (o : Order) → Evolves o o
Evolves-refl o = (refl, refl, refl, refl, omega arith, same)

Evolves-trans : (a b c : Order) → Evolves a b → Evolves b c → Evolves a c
Evolves-trans a b c (i, n, u, t, v, l) (i', n', u', t', v', l') =
    (i' ∙ i, n' ∙ n, u' ∙ u, t' ∙ t, omega arith, IsLater-trans l l')

-- Every order is still found, and has evolved.
abbrev pub Follows : List Order → List Order → Type 0
Follows os os' =
    (id : String) (o : Order)
    → find (λ q. q.id == id) os ≡ some o
    → (o' : Order) × (find (λ q. q.id == id) os' ≡ some o') × Evolves o o'

Follows-refl : (os : List Order) → Follows os os
Follows-refl os id o found = (o, found, Evolves-refl o)

Follows-append : (os more : List Order) → Follows os (os ++ more)
Follows-append os more id o found =
    (o, find-append_some (λ q. q.id == id) os more o found, Evolves-refl o)

set_status-Evolves :
    (env : Env) (status : OrderStatus) (o : Order)
    → IsLater o.status status
    → Evolves o (set_status env status o)
set_status-Evolves env status o later = (refl, refl, refl, refl, omega arith, later)

-- One order, found by its identifier, takes a later state.
with_status-Follows :
    (env : Env) (id : String) (status : OrderStatus) (os : List Order) (order : Order)
    → find (λ q. q.id == id) os ≡ some order
    → IsLater order.status status
    → Follows os (update_where (λ q. q.id == id) (set_status env status) os)
with_status-Follows env id status os order known later id' o found =
    let step =
      find-update_where (λ q. q.id == id') (λ q. q.id == id) (set_status env status) os
        (λ q. refl) in
    elim (Bool-cases (o.id == id)) [
      | inr other ↦ (o, step ∙ ground arith, Evolves-refl o)
      | inl hit ↦
          let ids : id' ≡ id =
            sym ((eq_iff o.id id').0 (find_sound (λ q. q.id == id') os o found))
            ∙ (eq_iff o.id id).0 hit in
          let it : some o ≡ some order =
            sym found ∙ ap (λ k. find (λ q. q.id == k) os) ids ∙ known in
          (
            set_status env status o,
            step ∙ ground arith,
            set_status-Evolves env status o
                (subst (λ x. IsLater x.status status) (sym (ap (λ x. get_or x order) it)) later),
          )
    ]

created-Follows :
    (services : Services) (dto : CreateOrderDto) (s : Store)
    (r : Result OrderError CreatedOrder × Store)
    → CreateOutcome services dto s r
    → Follows s.orders r.1.orders
created-Follows services dto s (err e, s') unchanged =
    subst (λ t. Follows s.orders t.orders) (sym unchanged) (Follows-refl s.orders)
created-Follows services dto s (ok c, s') (order, items, row, written, _, _, _, _, _, _, _, _) =
    subst (λ t. Follows s.orders t.orders) (sym written) (Follows-append s.orders (order ∷ []))

is_cancellable-IsLater :
    (status : OrderStatus) → is_cancellable status ≡ true → IsLater status OrderStatus.cancelled
unfolding is_cancellable
is_cancellable-IsLater OrderStatus.pending h = rejected
is_cancellable-IsLater OrderStatus.confirmed h = cancelled
is_cancellable-IsLater OrderStatus.cancelled h = same
is_cancellable-IsLater OrderStatus.failed h = absurd (ground arith)

module _ (env : Env) (id : String) (user : JwtPayload) (reason : Option String) (s : Store) where
  unchanged-Follows : (s' : Store) → s' ≡ s → Follows s.orders s'.orders
  unchanged-Follows s' e = subst (λ t. Follows s.orders t.orders) (sym e) (Follows-refl s.orders)

  cancelled-Follows :
      (order : Order)
      → find_by_id id s ≡ some order
      → is_cancellable order.status ≡ true
      → Follows s.orders (with_status env id OrderStatus.cancelled s).orders
  cancelled-Follows order found cancellable =
      with_status-Follows env id OrderStatus.cancelled s.orders order found
        (is_cancellable-IsLater order.status cancellable)

  cancel-Follows :
      (r : Result OrderError Order × Store)
      → CancelOutcome env id user reason s r
      → Follows s.orders r.1.orders
  cancel-Follows (ok o, s') (order, (found, allowed, cancellable), returned, written) =
      subst (λ t. Follows s.orders t.orders) (sym written)
        (cancelled-Follows order found cancellable)
  cancel-Follows (err (order_not_found _), s') (missing, e) = unchanged-Follows s' e
  cancel-Follows (err access_denied, s') (_, _, _, e) = unchanged-Follows s' e
  cancel-Follows (err (not_cancellable _ _), s') (_, _, _, _, _, e) = unchanged-Follows s' e
  cancel-Follows (err query_failed, s') (order, _, inl (_, e)) = unchanged-Follows s' e
  cancel-Follows (err query_failed, s') (order, (found, allowed, cancellable), inr (_, written)) =
      subst (λ t. Follows s.orders t.orders) (sym written)
        (cancelled-Follows order found cancellable)
  cancel-Follows (err _, s') h = absurd h

Announces-IsLater :
    (event_type : String) (status : OrderStatus)
    → Announces event_type status
    → IsLater OrderStatus.pending status
Announces-IsLater event_type status (inl (_, e)) =
    subst (IsLater OrderStatus.pending) (sym e) confirmed
Announces-IsLater event_type status (inr (_, e)) =
    subst (IsLater OrderStatus.pending) (sym e) rejected

Settles-Follows : (env : Env) (s s' : Store) → Settles env s s' → Follows s.orders s'.orders
Settles-Follows env s s' (inl (quiet, _)) =
    subst (Follows s.orders) (sym quiet) (Follows-refl s.orders)
Settles-Follows env s s'
      (inr (id, status, event_type, order, announced, found, pending, moved, _)) =
    subst (Follows s.orders) (sym moved) (
      with_status-Follows env id status s.orders order found (
        subst (λ x. IsLater x status) (sym pending)
          (Announces-IsLater event_type status announced)))

-- One operation, from one state to another.
pub data Step : Store → Store → Type 0 where
  create :
      (services : Services) (is_uuid : String → Bool) (env : Env) (dto : CreateOrderDto)
      (correlation_id : Option String) (s : Store)
      → Step s (create_order services is_uuid env dto correlation_id s).1
  cancel :
      (env : Env) (order_id : String) (user : JwtPayload) (reason : Option String) (s : Store)
      → Step s (cancel_order env order_id user reason s).1
  deliver :
      (ttl : ℕ) (env : Env) (message : Option InventoryEvent)
      (headers : Option (List (String × String))) (s : Store)
      → Step s (process ttl env message headers s)

pub data Reach : Store → Store → Type 0 where
  stop : {s : Store} → Reach s s
  after : {s t u : Store} → Step s t → Reach t u → Reach s u

pub Step-Follows : {s s' : Store} → Step s s' → Follows s.orders s'.orders
Step-Follows (create services is_uuid env dto correlation_id s) =
    created-Follows services dto s (create_order services is_uuid env dto correlation_id s)
      (create_order-CreateOutcome services is_uuid env dto correlation_id s)
Step-Follows (cancel env id user reason s) =
    cancel-Follows env id user reason s (cancel_order env id user reason s)
      (cancel_order-CancelOutcome env id user reason s)
Step-Follows (deliver ttl env message headers s) =
    Settles-Follows env s (process ttl env message headers s)
      (process-Settles ttl env message headers s)

-- Through any sequence of calls of createOrder and cancelOrder and of messages of the inventory,
-- with whatever failures, an order that is found is found later, with its number, its customer
-- and its total, and its state only goes from pending to confirmed or cancelled and from
-- confirmed to cancelled.
pub Reach-Follows :
    {s s' : Store} (history : Reach s s') (id : String) (order : Order)
    → find_by_id id s ≡ some order
    → (order' : Order) × (find_by_id id s' ≡ some order') × Evolves order order'
Reach-Follows stop id order found = (order, found, Evolves-refl order)
Reach-Follows (after step rest) id order found =
    let (next, known, evolved) = Step-Follows step id order found in
    let (last, there, later) = Reach-Follows rest id next known in
    (last, there, Evolves-trans order next last evolved later)

IsLater-cancelled :
    {status : OrderStatus} → IsLater OrderStatus.cancelled status → status ≡ OrderStatus.cancelled
IsLater-cancelled same = refl

-- A cancelled order stays cancelled.
cancelled_forever :
    {s s' : Store} (history : Reach s s') (id : String) (order : Order)
    → find_by_id id s ≡ some order
    → order.status ≡ OrderStatus.cancelled
    → (order' : Order) × (find_by_id id s' ≡ some order') × (order'.status ≡ OrderStatus.cancelled)
cancelled_forever history id order found done =
    let (order', there, (_, _, _, _, _, later)) = Reach-Follows history id order found in
    (order', there, IsLater-cancelled (subst (λ x. IsLater x order'.status) done later))
