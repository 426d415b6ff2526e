-- ===== src/Gateway/Proxy.antt =====
-- What is forwarded: api-gateway/src/proxy/proxy.service.ts and
-- api-gateway/src/proxy/proxy.controller.ts. The HTTP client and the token library are parameters.
pub mod Identity
pub mod Ordering
use ecommerce_microservices.Common.{
  ℕ, String, Bool, true, false, Option, none, some, List, [], ◌∷◌, if◌then◌else◌, get_or, or_else,
  truthy, or_text, ◌==◌, eqb, Result, ok, err,
}
use ecommerce_microservices.Common.Text.{template}
use ecommerce_microservices.Gateway.Auth.{
  GatewayUser, Payload, AuthError, jwt_guard, roles_guard, intercept,
}

-- A request as the handlers see it: what the guard and the interceptor have set, and the header.
pub record TypedRequest : Type 0 where
  pub user : Option GatewayUser
  pub correlation_id : Option String
  pub correlation_header : Option String

pub record InternalClaims : Type 0 where
  pub sub : String
  pub role : String
  pub roles : List String

pub record OrderItemDto : Type 0 where
  pub product_id : String
  pub quantity : ℕ

pub record CreateOrderDto : Type 0 where
  pub items : List OrderItemDto
  pub shipping_address_id : Option String
  pub notes : Option String

pub record ListProductsQueryDto : Type 0 where
  pub search : Option String
  pub category : Option String
  pub page : Option ℕ
  pub limit : Option ℕ

-- The body of an order, and whom it is for.
pub record OrderPayload : Type 0 where
  pub order : CreateOrderDto
  pub customer_user_id : String

pub record Headers : Type 0 where
  pub authorization : String
  pub correlation_id : String
  pub content_type : String

pub data Method : Type 0 where
  get : Option ListProductsQueryDto → Method
  post : OrderPayload → Method

pub record Downstream : Type 0 where
  pub url : String
  pub method : Method
  pub headers : Headers

-- What a request comes to: an answer, or an error of the client, with the answer that caused it, if
-- any (its status, and the message of its body, if any).
pub record ErrorResponse : Type 0 where
  pub status : ℕ
  pub message : Option String

pub data Answer (D : Type 0) : Type 0 where
  answered : ℕ → D → Answer D
  failed : Option ErrorResponse → String → Answer D

pub data Body (D : Type 0) : Type 0 where
  content : D → Body D
  error : ℕ → String → Body D

pub record Reply (D : Type 0) : Type 0 where
  pub status : ℕ
  pub cache_control : Option String
  pub body : Body D

unfoldable pub internal_claims : GatewayUser → InternalClaims
internal_claims user = record { sub = user.user_id; role = user.role; roles = user.role ∷ [] }

unfoldable pub build_downstream_headers : String → String → Headers
build_downstream_headers internal_token correlation_id = record {
  authorization = template ("Bearer " ∷ internal_token ∷ []);
  correlation_id = correlation_id;
  content_type = "application/json";
}

unfoldable pub get_service_url : (String → Option String) → String → Result String String
get_service_url config service_key = elim (truthy (config service_key)) [
  | none ↦ err (template ("Service URL not configured: " ∷ service_key ∷ []))
  | some url ↦ ok url
]

unfoldable pub get_user : TypedRequest → GatewayUser
get_user req = elim req.user [ none ↦ record { user_id = ""; role = "" } | some user ↦ user ]

unfoldable pub get_correlation_id : TypedRequest → String
get_correlation_id req =
    get_or (or_else (truthy req.correlation_id) (truthy req.correlation_header)) "unknown"

unfoldable pub forward : {D : Type 0} → Answer D → Reply D
forward (answered status d) = record { status = status; cache_control = none; body = content d }
forward (failed response reason) =
    let status : ℕ = elim response [ none ↦ 502 | some r ↦ r.status ] in
    let told : Option String = elim response [ none ↦ none | some r ↦ r.message ] in
    let message = if eqb status 502 then "Downstream service unavailable" else get_or told reason in
    record { status = status; cache_control = none; body = error status message }

-- What comes before a handler of the controller, which names no roles and is not public: the two
-- guards and the interceptor.
unfoldable pub enter :
    (Option String → Option Payload) → Option String → Option String → Result AuthError TypedRequest
unfolding jwt_guard roles_guard intercept
enter verify authorization correlation_header = elim (jwt_guard verify false authorization) [
  | err e ↦ err e
  | ok user ↦ elim (roles_guard none user) [
    | err e ↦ err e
    | ok _ ↦ ok (record {
      user = user;
      correlation_id = intercept correlation_header;
      correlation_header = correlation_header;
    })
  ]
]

-- The configuration, the token library with the secret in place, and the HTTP client.
module _ {D : Type 0} (config : String → Option String) (sign : InternalClaims → String)
    (send : Downstream → Answer D) where
  -- A call of a service: it fails before anything is sent where the address is not configured.
  unfoldable pub call : String → (String → String) → Method → String → String → Answer D
  unfolding get_service_url build_downstream_headers
  call service_key path method internal_token correlation_id =
      elim (get_service_url config service_key) [
        | err reason ↦ failed none reason
        | ok base ↦ send (record {
          url = path base;
          method = method;
          headers = build_downstream_headers internal_token correlation_id;
        })
      ]

  unfoldable pub service_products : Option ListProductsQueryDto → String → String → Answer D
  unfolding call
  service_products query =
      call "PRODUCT_SERVICE_URL" (λ base. template (base ∷ "/api/v1/products" ∷ [])) (get query)

  unfoldable pub service_product : String → String → String → Answer D
  unfolding call
  service_product id =
      call "PRODUCT_SERVICE_URL" (λ base. template (base ∷ "/api/v1/products/" ∷ id ∷ []))
        (get none)

  unfoldable pub service_me : String → String → Answer D
  unfolding call
  service_me =
      call "USER_SERVICE_URL" (λ base. template (base ∷ "/api/v1/users/me" ∷ [])) (get none)

  unfoldable pub service_create_order : OrderPayload → String → String → Answer D
  unfolding call
  service_create_order payload =
      call "ORDER_SERVICE_URL" (λ base. template (base ∷ "/api/v1/orders" ∷ [])) (post payload)

  unfoldable pub service_order : String → String → String → Answer D
  unfolding call
  service_order id =
      call "ORDER_SERVICE_URL" (λ base. template (base ∷ "/api/v1/orders/" ∷ id ∷ [])) (get none)

  -- A route: the token of the caller, the correlation identifier, the call, and the answer.
  unfoldable pub route : (String → String → Answer D) → TypedRequest → Reply D
  unfolding get_user get_correlation_id internal_claims forward
  route service req =
      forward (service (sign (internal_claims (get_user req))) (get_correlation_id req))

  unfoldable pub get_products : ListProductsQueryDto → TypedRequest → Reply D
  unfolding route service_products
  get_products query req = record (route (service_products (some query)) req) {
    cache_control = some "public, max-age=60";
  }

  unfoldable pub get_product_by_id : String → TypedRequest → Reply D
  unfolding route service_product
  get_product_by_id id = route (service_product id)

  unfoldable pub get_me : TypedRequest → Reply D
  unfolding route service_me
  get_me = route service_me

  unfoldable pub create_order : CreateOrderDto → TypedRequest → Reply D
  unfolding route service_create_order get_user
  create_order body req =
      route
        (service_create_order (record { order = body; customer_user_id = (get_user req).user_id }))
        req

  unfoldable pub get_order_by_id : String → TypedRequest → Reply D
  unfolding route service_order
  get_order_by_id id = route (service_order id)
