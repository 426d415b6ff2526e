-- ===== src/Orders/Service/Cancelling/Outcome.antt =====
-- What `cancelOrder` of order-service/src/modules/order/order.service.ts does, stated without its own
-- tests.
use ecommerce_microservices.Common.{
  ◌+◌, String, true, false, ◌≡◌, refl, sym, ap, ◌∙◌, ◌⊎◌, inl, inr, Option, none, some, List, [],
  ◌∷◌, ◌++◌, arith, ◌==◌, eq_iff, includes, get_or, or_text, update_where, Result, ok, err, Some,
  Bool-cases, false≢true,
}
use ecommerce_microservices.Orders.Entities.{
  Order, OrderStatus, order_cancelled, Outbox, OutboxStatus, JwtPayload, Store, OrderError,
  order_not_found, not_cancellable, access_denied, query_failed, user_not_found, user_unavailable,
  address_not_found, address_unavailable, products_missing, products_unavailable, product_not_found,
  product_unavailable, Env,
}
use ecommerce_microservices.Orders.Repository.{find_by_id, outbox_row}
use ecommerce_microservices.Orders.Service.{
  is_admin_or_support, may_access, is_cancellable, cancelled_payload, cancel_order,
}
use ecommerce_microservices.Orders.Service.Cancelling.{
  CancelOutcome, cancelled_row, cancel_order-CancelOutcome,
}

-- The caller has the role.
abbrev pub HasRole : String → JwtPayload → Type 0
HasRole role user = Some (λ r. r ≡ role) (get_or user.roles [])

-- The caller is the customer, an administrator, or in support.
abbrev pub MaySee : JwtPayload → Order → Type 0
MaySee user order =
    (order.customer_user_id ≡ user.sub) ⊎ HasRole "admin" user ⊎ HasRole "support" user

abbrev pub IsOpen : OrderStatus → Type 0
IsOpen status = (status ≡ OrderStatus.pending) ⊎ (status ≡ OrderStatus.confirmed)

-- The order, cancelled now.
abbrev pub cancelled : Env → Order → Order
cancelled env o = record {
  id = o.id;
  order_number = o.order_number;
  customer_user_id = o.customer_user_id;
  status = OrderStatus.cancelled;
  shipping_address_id = o.shipping_address_id;
  total_amount = o.total_amount;
  currency = o.currency;
  payment_method = o.payment_method;
  correlation_id = o.correlation_id;
  version = o.version + 1;
  created_at = o.created_at;
  updated_at = env.now;
}

-- The rows of the orders with the identifier are cancelled, and nothing else has changed.
abbrev pub with_cancelled : Env → String → Store → Store
with_cancelled env id s = record s {
  orders = update_where (λ o. o.id == id) (cancelled env) s.orders;
}

-- A pending event that tells of the cancelled order, of its customer, of who has cancelled it and
-- why.
abbrev pub Tells : String → Order → JwtPayload → Option String → Outbox → Type 0
Tells id order user reason row =
    (row.event_type ≡ "OrderCancelled")
    × (row.aggregate_id ≡ id)
    × (row.status ≡ OutboxStatus.pending)
    × (row.payload
        ≡ order_cancelled id order.order_number order.customer_user_id
            (or_text reason "Cancelled by user") (some user.sub))

-- The call may go on: the order is there, the caller may see it, and it is open.
abbrev pub IsGranted : String → JwtPayload → Store → Order → Type 0
IsGranted id user s order = (find_by_id id s ≡ some order) × MaySee user order × IsOpen order.status

abbrev pub Outcome :
    Env → String → JwtPayload → Option String → Store → Result OrderError Order × Store → Type 0
Outcome env id user reason s (ok updated, s') =
    (order : Order) × (row : Outbox) × IsGranted id user s order
    × (updated ≡ cancelled env order)
    × Tells id order user reason row
    × (s' ≡ record (with_cancelled env id s) { outbox = s.outbox ++ row ∷ [] })
Outcome env id user reason s (err (order_not_found _), s') = (find_by_id id s ≡ none) × (s' ≡ s)
Outcome env id user reason s (err access_denied, s') =
    (order : Order) × (find_by_id id s ≡ some order) × (¬ MaySee user order) × (s' ≡ s)
Outcome env id user reason s (err (not_cancellable _ status), s') =
    (order : Order) × (find_by_id id s ≡ some order)
    × MaySee user order
    × (order.status ≡ status)
    × (¬ IsOpen status)
    × (s' ≡ s)
Outcome env id user reason s (err query_failed, s') =
    (order : Order) × IsGranted id user s order
    × (((env.order_updated ≡ false) × (s' ≡ s))
        ⊎ ((env.outbox_saved ≡ false) × (s' ≡ with_cancelled env id s)))
Outcome env id user reason s (err _, s') = ⊥

includes-HasRole :
    (role : String) (roles : List String) → includes roles role ≡ true → Some (λ r. r ≡ role) roles
includes-HasRole role [] h = absurd (false≢true h)
includes-HasRole role (r ∷ roles) h = elim (Bool-cases (r == role)) [
  | inl hit ↦ inl ((eq_iff r role).0 hit)
  | inr miss ↦ inr (includes-HasRole role roles (ground arith))
]

HasRole-includes :
    (role : String) (roles : List String) → Some (λ r. r ≡ role) roles → includes roles role ≡ true
HasRole-includes role [] h = absurd h
HasRole-includes role (r ∷ roles) (inl same) = ground (arith, (eq_iff r role).1 same)
HasRole-includes role (r ∷ roles) (inr there) = ground (arith, HasRole-includes role roles there)

may_access-MaySee :
    (user : JwtPayload) (order : Order) → may_access order user ≡ true → MaySee user order
unfolding may_access is_admin_or_support
may_access-MaySee user order h =
    let roles = get_or user.roles [] in
    elim (Bool-cases (includes roles "admin")) [
      | inl admin ↦ inr (inl (includes-HasRole "admin" roles admin))
      | inr no_admin ↦ elim (Bool-cases (includes roles "support")) [
        | inl support ↦ inr (inr (includes-HasRole "support" roles support))
        | inr no_support ↦ inl ((eq_iff order.customer_user_id user.sub).0 (ground arith))
      ]
    ]

MaySee-may_access :
    (user : JwtPayload) (order : Order) → MaySee user order → may_access order user ≡ true
unfolding may_access is_admin_or_support
MaySee-may_access user order (inl own) =
    ground (arith, (eq_iff order.customer_user_id user.sub).1 own)
MaySee-may_access user order (inr (inl admin)) =
    ground (arith, HasRole-includes "admin" (get_or user.roles []) admin)
MaySee-may_access user order (inr (inr support)) =
    ground (arith, HasRole-includes "support" (get_or user.roles []) support)

is_cancellable-IsOpen : (status : OrderStatus) → is_cancellable status ≡ true → IsOpen status
unfolding is_cancellable
is_cancellable-IsOpen OrderStatus.pending h = inl refl
is_cancellable-IsOpen OrderStatus.confirmed h = inr refl
is_cancellable-IsOpen OrderStatus.cancelled h = absurd (false≢true h)
is_cancellable-IsOpen OrderStatus.failed h = absurd (false≢true h)

IsOpen-is_cancellable : (status : OrderStatus) → IsOpen status → is_cancellable status ≡ true
unfolding is_cancellable
IsOpen-is_cancellable status (inl pending) = ap is_cancellable pending
IsOpen-is_cancellable status (inr confirmed) = ap is_cancellable confirmed

granted :
    (id : String) (user : JwtPayload) (s : Store) (order : Order)
    → find_by_id id s ≡ some order
    → may_access order user ≡ true
    → is_cancellable order.status ≡ true
    → IsGranted id user s order
granted id user s order found may open_ =
    (found, may_access-MaySee user order may, is_cancellable-IsOpen order.status open_)

-- From the branches by the code's tests.
to_outcome :
    (env : Env) (id : String) (user : JwtPayload) (reason : Option String) (s : Store)
    (r : Result OrderError Order × Store)
    → CancelOutcome env id user reason s r
    → Outcome env id user reason s r
unfolding outbox_row cancelled_payload
to_outcome env id user reason s (ok updated, s') (order, (found, may, open_), same, written) = (
  order,
  cancelled_row env id order user reason,
  granted id user s order found may open_,
  same,
  (refl, refl, refl, refl),
  written,
)
to_outcome env id user reason s (err (order_not_found _), s') h = h
to_outcome env id user reason s (err access_denied, s') (order, found, denied, kept) =
    (order, found, (λ sees. false≢true (sym denied ∙ MaySee-may_access user order sees)), kept)
to_outcome env id user reason s (err (not_cancellable _ status), s')
      (order, found, may, same, settled, kept) =
    (
      order,
      found,
      may_access-MaySee user order may,
      same,
      (λ open_. false≢true (sym settled ∙ IsOpen-is_cancellable status open_)),
      kept,
    )
to_outcome env id user reason s (err query_failed, s') (order, (found, may, open_), h) =
    (order, granted id user s order found may open_, h)
to_outcome env id user reason s (err (user_not_found _), s') h = absurd h
to_outcome env id user reason s (err (user_unavailable _), s') h = absurd h
to_outcome env id user reason s (err (address_not_found _ _), s') h = absurd h
to_outcome env id user reason s (err (address_unavailable _), s') h = absurd h
to_outcome env id user reason s (err (products_missing _), s') h = absurd h
to_outcome env id user reason s (err products_unavailable, s') h = absurd h
to_outcome env id user reason s (err (product_not_found _), s') h = absurd h
to_outcome env id user reason s (err (product_unavailable _), s') h = absurd h

-- An order that is found, that the caller may see, as its customer, an administrator or in support,
-- and that is pending or confirmed, is cancelled: only its status, its version and its time of
-- change are written, and one pending event tells of it. An order that is not found, one that the
-- caller may not see, and one that is neither pending nor confirmed are reported as such, and
-- nothing changes. A failed update changes nothing, and a failed insert of the event leaves the
-- order cancelled.
pub cancel_order-Outcome :
    (env : Env) (id : String) (user : JwtPayload) (reason : Option String) (s : Store)
    → Outcome env id user reason s (cancel_order env id user reason s)
cancel_order-Outcome env id user reason s =
    to_outcome env id user reason s (cancel_order env id user reason s)
      (cancel_order-CancelOutcome env id user reason s)
