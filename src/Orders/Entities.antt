-- ===== src/Orders/Entities.antt =====
-- The rows of the order service's database (order-service/src/database/entities), the requests
-- that it takes (order-service/src/modules/order/dto), and the state that it works on. Prices are
-- whole cents, times are milliseconds.
use ecommerce_microservices.Common.{ℕ, String, Bool, Option, List, Exec}

pub data OrderStatus : Type 0 where
  pending confirmed cancelled failed : OrderStatus

pub record OrderItem : Type 0 where
  pub id : String
  pub order_id : String
  pub product_id : String
  pub sku : Option String
  pub quantity : ℕ
  pub unit_price : ℕ
  pub line_total : ℕ
  pub name : Option String

-- The items are no column: they are rows of another table, which a query joins.
pub record Order : Type 0 where
  pub id : String
  pub order_number : String
  pub customer_user_id : String
  pub status : OrderStatus
  pub shipping_address_id : Option String
  pub total_amount : ℕ
  pub currency : String
  pub payment_method : Option String
  pub correlation_id : Option String
  pub version : ℕ
  pub created_at : ℕ
  pub updated_at : ℕ

pub data OutboxStatus : Type 0 where
  pending sent : OutboxStatus

-- The payloads that the service writes, `eventType` and `timestamp` apart.
pub data Payload : Type 0 where
  order_created : Order → List OrderItem → Payload
  order_confirmed :
      (order_id order_number customer_user_id : String) (total_amount : ℕ) (currency : String)
      → Payload
  order_cancelled :
      (order_id order_number customer_user_id reason : String) (cancelled_by : Option String)
      → Payload

pub record Headers : Type 0 where
  pub correlation_id : Option String
  pub event_id : String

pub record Outbox : Type 0 where
  pub id : String
  pub aggregate_id : String
  pub event_type : String
  pub event_id : String
  pub payload : Payload
  pub headers : Option Headers
  pub status : OutboxStatus
  pub created_at : ℕ
  pub processed_at : Option ℕ

pub record ProcessedEvent : Type 0 where
  pub event_id : String
  pub event_type : String
  pub processed_at : ℕ
  pub expires_at : ℕ

pub record CreateOrderItemDto : Type 0 where
  pub product_id : String
  pub sku : Option String
  pub quantity : ℕ
  pub unit_price : Option ℕ

pub record CreateOrderDto : Type 0 where
  pub customer_user_id : String
  pub items : List CreateOrderItemDto
  pub shipping_address_id : String
  pub payment_method : Option String
  pub request_id : Option String

pub record ListOrdersQueryDto : Type 0 where
  pub status : Option OrderStatus
  pub page : Option ℕ
  pub limit : Option ℕ

-- The caller, as the token describes it.
pub record JwtPayload : Type 0 where
  pub sub : String
  pub roles : Option (List String)

pub record Store : Type 0 where
  pub orders : List Order
  pub order_items : List OrderItem
  pub outbox : List Outbox
  pub processed_events : List ProcessedEvent

-- The exceptions, with what their messages show. `query_failed` is an error of the database.
pub data OrderError : Type 0 where
  user_not_found user_unavailable : String → OrderError
  address_not_found : String → String → OrderError
  address_unavailable : String → OrderError
  products_missing : List String → OrderError
  products_unavailable : OrderError
  product_not_found product_unavailable : String → OrderError
  order_not_found : String → OrderError
  not_cancellable : String → OrderStatus → OrderError
  access_denied : OrderError
  query_failed : OrderError

-- What one call gets from its surroundings: the clock, as a time, as the date in UTC and as the
-- start of the day on the server, new identifiers, and whether each write goes through.
pub record Env : Type 0 where
  pub now : ℕ
  pub date : String
  pub start_of_day : ℕ
  pub order_id : String
  pub item_id : ℕ → String
  pub outbox_id : String
  pub outbox_event_id : String
  pub event_id : String
  pub correlation_id : String
  pub order_saved : Bool
  pub items_saved : Bool
  pub order_updated : Bool
  pub outbox_saved : Bool
  pub event_removed : Bool
  pub event_saved : Bool
  pub committed : Bool

abbrev pub Call : Type 0 → Type 0
Call A = Exec Store OrderError A
