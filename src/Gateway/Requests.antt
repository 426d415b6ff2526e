-- ===== src/Gateway/Requests.antt =====
-- A session at the gateway, and the orders of a user: the runs at which the theorems on the routes of
-- the gateway are applied.
use ecommerce_microservices.Common.{
  String, Bool, true, ◌≡◌, refl, inl, Option, none, some, [], ◌∷◌, ok, err, get_or, if◌then◌else◌,
  ◌==◌, Result,
}
use ecommerce_microservices.Common.Text.{template, decimal, split_spaces}
use ecommerce_microservices.Gateway.Auth.{Payload, invalid_token_payload, GatewayUser}
use ecommerce_microservices.Gateway.Proxy.{TypedRequest, internal_claims, CreateOrderDto, content}
use ecommerce_microservices.Gateway.Proxy.Identity.{
  InternalTokens, Passes, bearer_header, ask_me, login_then_me, payload_of,
}
use ecommerce_microservices.Gateway.Proxy.Ordering.{
  order_through, gateway_order-IsOwn, gateway_takes_more, Reads,
}
use ecommerce_microservices.Users.Entities.{User, Store}
use ecommerce_microservices.Users.Accounts.{Bcrypt}
use ecommerce_microservices.Users.Auth
use ecommerce_microservices.Users.Auth.{
  JwtService, AuthTokenPair, issue_token_pair, login, access_claims, refresh_claims,
}
use ecommerce_microservices.Users.Routes.{user_response}
use ecommerce_microservices.Orders.Entities
use ecommerce_microservices.Orders.Validation.{Services, answered}
use ecommerce_microservices.Orders.Service.{CreatedOrder}
use ecommerce_microservices.Orders.Routes.{TokenClaims, RouteError}
use ecommerce_microservices.Orders.Routes.Laws.{IsOwn}

-- A session.
abbrev account : User
account = record {
  id = "u";
  email = "ann@example.com";
  phone = none;
  first_name = "Ann";
  last_name = "Lee";
  password_hash = some "#";
  is_active = true;
  created_at = 7;
  updated_at = 7;
}

abbrev users : Store
users = record { users = account ∷ []; addresses = [] }

abbrev bcrypt : Bcrypt
bcrypt = record { hash = λ p. "#"; compare = λ p h. p == "secret" }

abbrev settings : Auth.Config
settings = record { access_expires_in = none; refresh_expires_in = none; duration = λ d. none }

-- A token says what kind it is.
abbrev jwt : JwtService
jwt = record { sign = λ now claims lifetime. get_or claims.type ""; verify = λ now token. none }

abbrev verify : Option String → Option Payload
verify header =
    if get_or header "" == "Bearer access"
    then some (record { sub = some "u"; role = some "customer" })
    else some (record { sub = some "u"; role = none })

abbrev customer : GatewayUser
customer = record { user_id = "u"; role = "customer" }

abbrev tokens : InternalTokens
tokens = record {
  sign = λ c. "internal";
  verify = λ token. some (record { sub = "u"; role = "customer"; roles = "customer" ∷ [] });
}

abbrev addresses : String → Option String
addresses key = some "http://service"

abbrev pair : AuthTokenPair
pair = record {
  access_token = "access";
  refresh_token = "refresh";
  token_type = "Bearer";
  expires_in = 0;
  user = account;
}

logged : login jwt settings bcrypt 5 "ann@example.com" "secret" users ≡ (ok pair, users)
unfolding login issue_token_pair access_claims refresh_claims Auth.parse_duration_to_seconds
logged = refl

reads_access :
    verify (bearer_header (jwt.sign 5 (access_claims account) "15m"))
    ≡ some (payload_of (access_claims account))
unfolding access_claims template
reads_access = refl

reads_refresh :
    verify (bearer_header (jwt.sign 5 (refresh_claims account) "7d"))
    ≡ some (payload_of (refresh_claims account))
unfolding refresh_claims template
reads_refresh = refl

passes : Passes tokens (internal_claims customer)
unfolding internal_claims split_spaces
passes = (refl, refl, refl)

login_then_me_example :
    (ask_me tokens addresses verify users "access"
      ≡ ok (record { status = 200; cache_control = none; body = content (user_response account) }))
    × (ask_me tokens addresses verify users "refresh" ≡ err invalid_token_payload)
login_then_me_example =
    login_then_me jwt tokens settings bcrypt addresses verify 5 "ann@example.com" "secret"
      "http://service" users users pair logged refl refl refl reads_access reads_refresh passes

-- An order.
abbrev services : Services
services = record {
  user = λ id. answered (some (record { id = some id }));
  address = λ user id. answered (some (record { id = some id }));
  exists = λ ids. answered (some []);
  product = λ id. answered (some (record { id = some id; name = "name"; price = 300; sku = none }));
}

abbrev surroundings : Entities.Env
surroundings = record {
  now = 150;
  date = "20260101";
  start_of_day = 100;
  order_id = "new";
  item_id = λ n. decimal n;
  outbox_id = "row";
  outbox_event_id = "column";
  event_id = "header";
  correlation_id = "correlation";
  order_saved = true;
  items_saved = true;
  order_updated = true;
  outbox_saved = true;
  event_removed = true;
  event_saved = true;
  committed = true;
}

abbrev body : CreateOrderDto
body = record {
  items = record { product_id = "p"; quantity = 2 } ∷ [];
  shipping_address_id = some "home";
  notes = none;
}

abbrev request : TypedRequest
request = record { user = some customer; correlation_id = none; correlation_header = none }

abbrev orders : Entities.Store
orders = record { orders = []; order_items = []; outbox = []; processed_events = [] }

abbrev read : String → Option TokenClaims
read header = some (record { sub = some "u"; roles = some ("customer" ∷ []) })

abbrev is_uuid : String → Bool
is_uuid s = true

reads : Reads tokens.sign read (internal_claims customer)
unfolding internal_claims
reads = refl

gateway_order-IsOwn_example :
    (r : Result RouteError CreatedOrder × Entities.Store) × (order_through read is_uuid services
        surroundings addresses tokens.sign body request orders
      ≡ some r)
    × IsOwn "u" orders r
gateway_order-IsOwn_example =
    gateway_order-IsOwn addresses tokens.sign read is_uuid services surroundings body request
      customer "http://service" orders refl refl reads

gateway_takes_example :
    (e : RouteError) × (order_through read is_uuid services surroundings addresses tokens.sign
        (record body { notes = some "ring twice" })
        request
        orders
      ≡ some (err e, orders))
gateway_takes_example =
    gateway_takes_more addresses tokens.sign read is_uuid services surroundings
      (record body { notes = some "ring twice" }) request "http://service" orders refl
      (inl ("ring twice", refl))
