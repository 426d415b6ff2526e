-- ===== src/Orders/Service.antt =====
-- order-service/src/modules/order/order.service.ts.
pub mod Numbers
pub mod Listing
pub mod Cancelling
pub mod Creation
use ecommerce_microservices.Common.{
  ℕ, ◌+◌, ◌*◌, String, Bool, true, false, not, Option, none, some, List, [], ◌∷◌, map,
  if◌then◌else◌, get_or, or_text, truthy, includes, ◌==◌, ◌||◌, ◌&&◌, Result, ok, err, Exec, pure,
  gets, throw_if, or_throw, ◌>>=◌, ◌>>◌,
}
use ecommerce_microservices.Orders.Entities.{
  Order, OrderItem, OrderStatus, Payload, order_created, order_cancelled, Headers, CreateOrderDto,
  ListOrdersQueryDto, JwtPayload, Store, OrderError, order_not_found, not_cancellable,
  access_denied, query_failed, Env, Call,
}
use ecommerce_microservices.Orders.Validation.{
  Services, ValidatedOrderItem, Checked, validate_user, validate_address,
  validate_and_price_products,
}
use ecommerce_microservices.Orders.Repository.{
  CreateOrderItem, CreateOrderData, FindOptions, new_order, new_items, insert_order, find_by_id,
  items_of, update_status, create_entry, find_all, generate_order_number,
}

-- `reduce((sum, item) => sum + price * quantity, 0)`, from the sum so far.
unfoldable pub total_from : ℕ → List ValidatedOrderItem → ℕ
total_from sum [] = sum
total_from sum (v ∷ vs) = total_from (sum + v.validated_price * v.item.quantity) vs

unfoldable pub order_item : ValidatedOrderItem → CreateOrderItem
order_item v = record {
  product_id = v.item.product_id;
  sku = v.validated_sku;
  quantity = v.item.quantity;
  unit_price = v.validated_price;
  line_total = v.validated_price * v.item.quantity;
  name = v.validated_name;
}

-- What comes of a check of the validation service.
abbrev pub lift : {A : Type 0} → Checked A → Call A
lift r s = (r, s)

-- A transaction of a query runner: a throw in the body, or a commit that fails, takes back all.
unfoldable pub transaction : {A : Type 0} → Env → Call A → Call A
transaction env body s =
    let (r, s') = body s in
    elim r [
      | ok a ↦ if env.committed then (ok a, s') else (err query_failed, s)
      | err e ↦ (err e, s)
    ]

-- The tests that the service makes for the two privileged roles.
unfoldable pub is_admin_or_support : JwtPayload → Bool
is_admin_or_support user =
    let roles = get_or user.roles [] in includes roles "admin" || includes roles "support"

-- `checkRoles` passes.
unfoldable pub may_access : Order → JwtPayload → Bool
may_access order user = is_admin_or_support user || order.customer_user_id == user.sub

pub record CreatedOrder : Type 0 where
  pub order_id : String
  pub status : OrderStatus
  pub order_number : String

-- The identifier that is kept where it is a uuid; else a new one.
unfoldable pub correlation_of : Env → (String → Bool) → Option String → String
correlation_of env is_uuid correlation_id = elim (truthy correlation_id) [
  | none ↦ env.correlation_id
  | some id ↦ if is_uuid id then id else env.correlation_id
]

unfoldable pub order_data :
    CreateOrderDto → String → String → List ValidatedOrderItem → CreateOrderData
order_data dto order_number correlation_id validated = record {
  customer_user_id = dto.customer_user_id;
  order_number = order_number;
  shipping_address_id = dto.shipping_address_id;
  total_amount = total_from 0 validated;
  currency = "USD";
  payment_method = dto.payment_method;
  correlation_id = some correlation_id;
  items = map order_item validated;
}

-- The body of the transaction of `createOrder`.
unfoldable pub write_order : Env → CreateOrderData → Call Order
write_order env input = do
  order ← insert_order env input
  create_entry env order.id "OrderCreated" (order_created order (new_items env 0 input.items))
      (record { correlation_id = input.correlation_id; event_id = env.event_id })
  pure order

-- The uuid library's `validate` is a parameter.
unfoldable pub create_order :
    Services → (String → Bool) → Env → CreateOrderDto → Option String → Call CreatedOrder
create_order services is_uuid env dto correlation_id = do
  user ← lift (validate_user services dto.customer_user_id)
  address ← lift (validate_address services dto.customer_user_id dto.shipping_address_id)
  validated ← lift (validate_and_price_products services dto.items)
  order_number ← gets (generate_order_number env)
  order ← transaction env (
      write_order env
        (order_data dto order_number (correlation_of env is_uuid correlation_id) validated))
  pure (record {
    order_id = order.id;
    status = OrderStatus.pending;
    order_number = order.order_number;
  })

unfoldable pub get_order : String → JwtPayload → Call (Order × List OrderItem)
get_order order_id user = do
  found ← gets (find_by_id order_id)
  order ← or_throw found (order_not_found order_id)
  throw_if (not (may_access order user)) access_denied
  items ← gets (items_of order_id)
  pure (order, items)

pub record OrderPage : Type 0 where
  pub orders : List Order
  pub total : ℕ
  pub page : ℕ
  pub limit : ℕ

unfoldable pub list_options : ListOrdersQueryDto → JwtPayload → FindOptions
list_options query user = record {
  customer_user_id = if is_admin_or_support user then none else some user.sub;
  status = query.status;
  page = get_or query.page 1;
  limit = get_or query.limit 20;
}

unfoldable pub list_orders : ListOrdersQueryDto → JwtPayload → Store → Result OrderError OrderPage
list_orders query user s =
    let options = list_options query user in
    elim (find_all options s) [
      | err e ↦ err e
      | ok (orders, total) ↦
          ok (record { orders = orders; total = total; page = options.page; limit = options.limit })
    ]

unfoldable pub is_cancellable : OrderStatus → Bool
is_cancellable OrderStatus.pending = true
is_cancellable OrderStatus.confirmed = true
is_cancellable _ = false

unfoldable pub cancelled_payload : String → Order → JwtPayload → Option String → Payload
cancelled_payload order_id order user reason =
    order_cancelled order_id order.order_number order.customer_user_id
      (or_text reason "Cancelled by user") (some user.sub)

unfoldable pub cancel_order : Env → String → JwtPayload → Option String → Call Order
cancel_order env order_id user reason = do
  found ← gets (find_by_id order_id)
  order ← or_throw found (order_not_found order_id)
  throw_if (not (may_access order user)) access_denied
  throw_if (not (is_cancellable order.status)) (not_cancellable order_id order.status)
  updated ← update_status env order_id OrderStatus.cancelled
  updated_order ← or_throw updated (order_not_found order_id)
  create_entry env order_id "OrderCancelled" (cancelled_payload order_id order user reason)
      (record { correlation_id = order.correlation_id; event_id = env.event_id })
  pure updated_order
