-- ===== src/Orders/Repository.antt =====
-- order-service/src/modules/order/order.repository.ts, and the writes of
-- order-service/src/modules/outbox/outbox.repository.ts that the operations on orders make.
use ecommerce_microservices.Common.{
  eqb, ℕ, suc, ◌+◌, ◌-◌, ◌*◌, String, Bool, true, false, not, Option, none, some, List, [], ◌∷◌,
  ◌++◌, if◌then◌else◌, ltb, leb, truthy, length, take, drop, any, find, filter, update_where, ◌==◌,
  ◌||◌, ◌&&◌, Result, ok, err, pure, gets, modify, throw_if, ◌>>=◌, ◌>>◌,
}
use ecommerce_microservices.Common.Sort.{order_by}
use ecommerce_microservices.Common.Text.{template, decimal, pad_start}
use ecommerce_microservices.Orders.Entities.{
  Order, OrderItem, OrderStatus, Outbox, OutboxStatus, Payload, Headers, Store, OrderError,
  query_failed, Env, Call,
}

pub record CreateOrderItem : Type 0 where
  pub product_id : String
  pub sku : Option String
  pub quantity : ℕ
  pub unit_price : ℕ
  pub line_total : ℕ
  pub name : String

pub record CreateOrderData : Type 0 where
  pub customer_user_id : String
  pub order_number : String
  pub shipping_address_id : String
  pub total_amount : ℕ
  pub currency : String
  pub payment_method : Option String
  pub correlation_id : Option String
  pub items : List CreateOrderItem

abbrev pub same_status : OrderStatus → OrderStatus → Bool
same_status OrderStatus.pending OrderStatus.pending = true
same_status OrderStatus.confirmed OrderStatus.confirmed = true
same_status OrderStatus.cancelled OrderStatus.cancelled = true
same_status OrderStatus.failed OrderStatus.failed = true
same_status _ _ = false

-- The row that `createOrder` makes.
unfoldable pub new_order : Env → CreateOrderData → Order
new_order env input = record {
  id = env.order_id;
  order_number = input.order_number;
  customer_user_id = input.customer_user_id;
  status = OrderStatus.pending;
  shipping_address_id = some input.shipping_address_id;
  total_amount = input.total_amount;
  currency = input.currency;
  payment_method = input.payment_method;
  correlation_id = input.correlation_id;
  version = 0;
  created_at = env.now;
  updated_at = env.now;
}

-- The rows of the items, the first with the identifier of number `n`.
unfoldable pub new_items : Env → ℕ → List CreateOrderItem → List OrderItem
new_items env n [] = []
new_items env n (item ∷ items) =
    record {
      id = env.item_id n;
      order_id = env.order_id;
      product_id = item.product_id;
      sku = item.sku;
      quantity = item.quantity;
      unit_price = item.unit_price;
      line_total = item.line_total;
      name = some item.name;
    }
    ∷ new_items env (suc n) items

-- The column `order_number` is unique.
abbrev pub is_taken : String → Store → Bool
is_taken order_number s = any (λ o. o.order_number == order_number) s.orders

-- `createOrder`: the row of the order, and the rows of its items.
unfoldable pub insert_order : Env → CreateOrderData → Call Order
insert_order env input = do
  let order = new_order env input
  taken ← gets (is_taken input.order_number)
  throw_if (not env.order_saved || taken) query_failed
  modify (λ s. record s { orders = s.orders ++ order ∷ [] })
  throw_if (not env.items_saved) query_failed
  modify (λ s. record s { order_items = s.order_items ++ new_items env 0 input.items })
  pure order

abbrev pub find_by_id : String → Store → Option Order
find_by_id id s = find (λ o. o.id == id) s.orders

unfoldable pub find_by_order_number : String → Store → Option Order
find_by_order_number order_number s = find (λ o. o.order_number == order_number) s.orders

-- The items that the queries join to an order.
unfoldable pub items_of : String → Store → List OrderItem
items_of id s = filter (λ i. i.order_id == id) s.order_items

abbrev pub set_status : Env → OrderStatus → Order → Order
set_status env status o = record o {
  status = status;
  version = o.version + 1;
  updated_at = env.now;
}

unfoldable pub update_status : Env → String → OrderStatus → Call (Option Order)
update_status env id status = do
  throw_if (not env.order_updated) query_failed
  modify
      (λ s. record s { orders = update_where (λ o. o.id == id) (set_status env status) s.orders })
  gets (find_by_id id)

-- The row that `createEntry` makes.
unfoldable pub outbox_row : Env → String → String → Payload → Headers → Outbox
outbox_row env aggregate_id event_type payload headers = record {
  id = env.outbox_id;
  aggregate_id = aggregate_id;
  event_type = event_type;
  event_id = env.outbox_event_id;
  payload = payload;
  headers = some headers;
  status = OutboxStatus.pending;
  created_at = env.now;
  processed_at = none;
}

unfoldable pub create_entry : Env → String → String → Payload → Headers → Call (Unit {0})
create_entry env aggregate_id event_type payload headers = do
  throw_if (not env.outbox_saved) query_failed
  modify (λ s. record s {
    outbox = s.outbox ++ outbox_row env aggregate_id event_type payload headers ∷ [];
  })

pub record FindOptions : Type 0 where
  pub customer_user_id : Option String
  pub status : Option OrderStatus
  pub page : ℕ
  pub limit : ℕ

-- The conditions are left out where the option is absent or empty.
unfoldable pub matches : FindOptions → Order → Bool
matches options o =
    elim (truthy options.customer_user_id) [ none ↦ true | some id ↦ o.customer_user_id == id ]
    && elim options.status [ none ↦ true | some status ↦ same_status o.status status ]

-- All orders that match, the newest first.
unfoldable pub matching : FindOptions → Store → List Order
matching options s =
    order_by (λ a b. leb b.created_at a.created_at) (filter (matches options) s.orders)

-- One page of them, and how many there are. Before the first page the offset is negative, which
-- the database refuses. A limit of 0 is none to the query builder: with no limit and no offset it
-- joins the tables as they are and brings back all orders. Pages and limits that are no natural
-- numbers are left out.
unfoldable pub find_all : FindOptions → Store → Result OrderError (List Order × ℕ)
find_all options s =
    let found = matching options s in
    if eqb options.limit 0
    then ok (found, length found)
    else if ltb options.page 1
    then err query_failed
    else ok (take options.limit (drop ((options.page - 1) * options.limit) found), length found)

unfoldable pub number_of : String → ℕ → String
number_of date count = template ("ORD-" ∷ date ∷ "-" ∷ pad_start 5 (decimal (count + 1)) ∷ [])

-- The date is that of UTC, the day starts at midnight on the server's clock.
unfoldable pub generate_order_number : Env → Store → String
generate_order_number env s =
    number_of env.date (length (filter (λ o. leb env.start_of_day o.created_at) s.orders))
