-- ===== src/Orders/Routes.antt =====
-- The routes of order-service/src/modules/order/order.controller.ts: the token's claims
-- (order-service/src/common/guards/internal-jwt.strategy.ts), the guard of the roles, what the
-- decorators of order-service/src/modules/order/dto demand of a body, the handlers, and the form of
-- their answers. What is known of a token, and which texts are uuids, are parameters.
pub mod Laws
use ecommerce_microservices.Common.{
  ℕ, String, Bool, true, false, not, Option, none, some, List, [], ◌∷◌, map, if◌then◌else◌, ltb,
  truthy, is_some, ◌&&◌, Result, ok, err, Exec, pure, throw, gets, throw_if, or_throw, ◌>>=◌, ◌>>◌,
}
use ecommerce_microservices.Orders.Entities.{
  Order, OrderItem, OrderStatus, CreateOrderItemDto, CreateOrderDto, ListOrdersQueryDto, JwtPayload,
  Store, OrderError, Env, Call,
}
use ecommerce_microservices.Orders.Validation.{Services}
use ecommerce_microservices.Orders.Repository.{items_of}
use ecommerce_microservices.Orders.Service.{
  CreatedOrder, OrderPage, create_order, get_order, list_orders, cancel_order,
}
use ecommerce_microservices.Orders.Access.{
  Denial, can_activate, create_roles, order_roles, own_order,
}

pub data RouteError : Type 0 where
  unauthorized : RouteError
  denied : Denial → RouteError
  bad_request : RouteError
  failed : OrderError → RouteError

abbrev pub Route : Type 0 → Type 0
Route A = Exec Store RouteError A

-- The claims of a token, as far as they are read.
pub record TokenClaims : Type 0 where
  pub sub : Option String
  pub roles : Option (List String)

-- A request: the claims, where the token is valid, and the header `x-correlation-id`.
pub record Request : Type 0 where
  pub token : Option TokenClaims
  pub correlation_id : Option String

unfoldable pub validate : TokenClaims → Result RouteError JwtPayload
validate payload = elim (truthy payload.sub) [
  | none ↦ err unauthorized
  | some sub ↦ ok (record { sub = sub; roles = payload.roles })
]

-- The two guards of the controller: the caller, if both let the request pass.
unfoldable pub admit : List String → Request → Result RouteError JwtPayload
unfolding validate
admit required req = elim req.token [
  | none ↦ err unauthorized
  | some payload ↦ elim (validate payload) [
    | err e ↦ err e
    | ok user ↦ elim (can_activate (some required) (some user)) [
      | err e ↦ err (denied e)
      | ok _ ↦ ok user
    ]
  ]
]

-- The body of a new order as it comes, of which `unknown` are the names of the fields that the
-- request has and its class has not.
pub record OrderBody : Type 0 where
  pub customer_user_id : Option String
  pub items : List CreateOrderItemDto
  pub shipping_address_id : Option String
  pub payment_method : Option String
  pub request_id : Option String
  pub unknown : List String

no_fields : List String → Bool
no_fields [] = true
no_fields (_ ∷ _) = false

module _ (is_uuid : String → Bool) where
  -- `@IsUUID()`, of a field that is not optional
  a_uuid : Option String → Option String
  a_uuid none = none
  a_uuid (some s) = if is_uuid s then some s else none

  valid_item : CreateOrderItemDto → Bool
  valid_item item = is_uuid item.product_id && ltb 0 item.quantity

  valid_items : List CreateOrderItemDto → Bool
  unfolding valid_item
  valid_items [] = true
  valid_items (item ∷ items) = valid_item item && valid_items items

  -- `@ArrayNotEmpty()` and `@ValidateNested({ each: true })`
  some_valid_items : List CreateOrderItemDto → Bool
  unfolding valid_items
  some_valid_items [] = false
  some_valid_items (item ∷ items) = valid_items (item ∷ items)

  -- The validation pipe, which refuses a body with a field that the class has not.
  unfoldable pub validate_body : OrderBody → Result RouteError CreateOrderDto
  unfolding a_uuid some_valid_items no_fields
  validate_body body =
      if no_fields body.unknown && some_valid_items body.items
      then elim (a_uuid body.customer_user_id) [
        | none ↦ err bad_request
        | some customer ↦ elim (a_uuid body.shipping_address_id) [
          | none ↦ err bad_request
          | some address ↦ ok (record {
            customer_user_id = customer;
            items = body.items;
            shipping_address_id = address;
            payment_method = body.payment_method;
            request_id = body.request_id;
          })
        ]
      ]
      else err bad_request

-- A guard or a pipe changes nothing.
abbrev pub lift : {A : Type 0} → Result RouteError A → Route A
lift r s = (r, s)

unfoldable pub run : {A : Type 0} → Call A → Route A
run m s = let (r, s') = m s in elim r [ ok a ↦ (ok a, s') | err e ↦ (err (failed e), s') ]

pub record OrderItemResponse : Type 0 where
  pub id : String
  pub product_id : String
  pub sku : Option String
  pub quantity : ℕ
  pub unit_price : ℕ
  pub line_total : ℕ
  pub name : Option String

pub record OrderResponse : Type 0 where
  pub id : String
  pub order_number : String
  pub customer_user_id : String
  pub status : OrderStatus
  pub shipping_address_id : Option String
  pub total_amount : ℕ
  pub currency : String
  pub payment_method : Option String
  pub correlation_id : Option String
  pub version : ℕ
  pub created_at : ℕ
  pub updated_at : ℕ
  pub items : List OrderItemResponse

unfoldable pub item_response : OrderItem → OrderItemResponse
item_response item = record {
  id = item.id;
  product_id = item.product_id;
  sku = item.sku;
  quantity = item.quantity;
  unit_price = item.unit_price;
  line_total = item.line_total;
  name = item.name;
}

unfoldable pub map_to_response : Order → List OrderItem → OrderResponse
unfolding item_response
map_to_response order items = record {
  id = order.id;
  order_number = order.order_number;
  customer_user_id = order.customer_user_id;
  status = order.status;
  shipping_address_id = order.shipping_address_id;
  total_amount = order.total_amount;
  currency = order.currency;
  payment_method = order.payment_method;
  correlation_id = order.correlation_id;
  version = order.version;
  created_at = order.created_at;
  updated_at = order.updated_at;
  items = map item_response items;
}

pub record OrderPageResponse : Type 0 where
  pub orders : List OrderResponse
  pub total : ℕ
  pub page : ℕ
  pub limit : ℕ

module _ (is_uuid : String → Bool) where
  -- POST /orders
  unfoldable pub post_order : Services → Env → OrderBody → Request → Route CreatedOrder
  unfolding admit validate_body run
  post_order services env body req = do
    user ← lift (admit create_roles req)
    dto ← lift (validate_body is_uuid body)
    run (create_order services is_uuid env (own_order dto user) req.correlation_id)

  -- GET /orders/:id
  unfoldable pub get_one : String → Request → Route OrderResponse
  unfolding admit run map_to_response
  get_one id req = do
    user ← lift (admit order_roles req)
    throw_if (not (is_uuid id)) bad_request
    (order, items) ← run (get_order id user)
    pure (map_to_response order items)

  -- POST /orders/:id/cancel: the order is read again with its items.
  unfoldable pub post_cancel : Env → String → Option String → Request → Route OrderResponse
  unfolding admit run map_to_response
  post_cancel env id reason req = do
    user ← lift (admit order_roles req)
    throw_if (not (is_uuid id)) bad_request
    order ← run (cancel_order env id user reason)
    items ← gets (items_of id)
    pure (map_to_response order items)

listed : ListOrdersQueryDto → JwtPayload → Route OrderPage
listed query user s = elim (list_orders query user s) [
  | ok page ↦ (ok page, s)
  | err e ↦ (err (failed e), s)
]

-- GET /orders
unfoldable pub get_many : ListOrdersQueryDto → Request → Route OrderPageResponse
unfolding admit map_to_response listed
get_many query req = do
  user ← lift (admit order_roles req)
  page ← listed query user
  orders ← gets (λ s. map (λ o. map_to_response o (items_of o.id s)) page.orders)
  pure (record { orders = orders; total = page.total; page = page.page; limit = page.limit })
