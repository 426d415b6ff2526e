-- ===== src/Gateway/Proxy/Ordering.antt =====
-- `POST /orders` at the gateway (api-gateway/src/proxy/proxy.controller.ts), together with the
-- order service that gets what is forwarded.
use ecommerce_microservices.Common.{
  String, Bool, ◌≡◌, sym, ap, ◌∙◌, ◌⊎◌, inl, inr, Option, none, some, [], ◌∷◌, arith, truthy, map,
  get_or, Result, err, subst,
}
use ecommerce_microservices.Common.Text.{template}
use ecommerce_microservices.Gateway.Auth.{GatewayUser}
use ecommerce_microservices.Gateway.Proxy.{
  TypedRequest, InternalClaims, OrderItemDto, CreateOrderDto, OrderPayload, get, post, Downstream,
  Answer, answered, Reply, content, error, internal_claims, get_user, get_correlation_id,
  build_downstream_headers, get_service_url, call, service_create_order, route, create_order,
  forward,
}
use ecommerce_microservices.Orders.Entities.{CreateOrderItemDto, Store, Env}
use ecommerce_microservices.Orders.Validation.{Services}
use ecommerce_microservices.Orders.Service.{CreatedOrder}
use ecommerce_microservices.Orders.Access.{create_roles}
use ecommerce_microservices.Orders.Routes
use ecommerce_microservices.Orders.Routes.{
  RouteError, TokenClaims, OrderBody, Request, admit, validate, validate_body, post_order,
}
use ecommerce_microservices.Orders.Routes.Laws.{
  IsOwn, post_order-IsOwn, post_order_cases, admit-sub, validate_body-refused,
}

-- The body as the order service reads it: `notes` is a field that its class has not.
order_item : OrderItemDto → CreateOrderItemDto
order_item item = record {
  product_id = item.product_id;
  sku = none;
  quantity = item.quantity;
  unit_price = none;
}

pub order_body : OrderPayload → OrderBody
unfolding order_item
order_body payload = record {
  customer_user_id = some payload.customer_user_id;
  items = map order_item payload.order.items;
  shipping_address_id = payload.order.shipping_address_id;
  payment_method = none;
  request_id = none;
  unknown = elim payload.order.notes [ none ↦ [] | some _ ↦ "notes" ∷ [] ];
}

-- What the token library of the order service reads of the header that the gateway builds.
abbrev pub Reads :
    (InternalClaims → String) → (String → Option TokenClaims) → InternalClaims → Type 0
Reads sign read c =
    read (template ("Bearer " ∷ sign c ∷ []))
    ≡ some (record { sub = some c.sub; roles = some c.roles })

-- The requests that a handler sends: a client that answers with what it is sent shows them.
abbrev pub sent : Reply Downstream → Option Downstream
sent r = elim r.body [ content d ↦ some d | error _ _ ↦ none ]

abbrev pub echo : Downstream → Answer Downstream
echo d = answered 202 d

module _ (read : String → Option TokenClaims) (is_uuid : String → Bool) (services : Services)
    (env : Env) where
  -- The order service, on a request that it gets.
  pub serve_order : Downstream → Store → Result RouteError CreatedOrder × Store
  unfolding order_body
  serve_order d s =
      let req : Request = record {
        token = read d.headers.authorization;
        correlation_id = some d.headers.correlation_id;
      } in
      elim d.method [
        | get _ ↦ (err Routes.bad_request, s)
        | post payload ↦ post_order is_uuid services env (order_body payload) req s
      ]

  -- The gateway and the order service, on one request to the gateway.
  pub order_through :
      (String → Option String)
      → (InternalClaims → String)
      → CreateOrderDto
      → TypedRequest
      → Store
      → Option (Result RouteError CreatedOrder × Store)
  unfolding serve_order
  order_through config sign body req s = elim (sent (create_order config sign echo body req)) [
    | none ↦ none
    | some d ↦ some (serve_order d s)
  ]

-- The request that the handler sends.
abbrev pub order_request :
    String → (InternalClaims → String) → CreateOrderDto → TypedRequest → Downstream
order_request base sign body req = record {
  url = template (base ∷ "/api/v1/orders" ∷ []);
  method = post (record { order = body; customer_user_id = (get_user req).user_id });
  headers =
      build_downstream_headers (sign (internal_claims (get_user req))) (get_correlation_id req);
}

sent-create_order :
    (config : String → Option String) (sign : InternalClaims → String) (body : CreateOrderDto)
    (req : TypedRequest) (base : String)
    → truthy (config "ORDER_SERVICE_URL") ≡ some base
    → sent (create_order config sign echo body req) ≡ some (order_request base sign body req)
unfolding create_order route service_create_order call get_service_url forward
sent-create_order config sign body req base configured = ground arith

-- The claims that the order service reads of the header.
claims_read :
    (sign : InternalClaims → String) (read : String → Option TokenClaims) (user : GatewayUser)
    (correlation_id : String)
    → Reads sign read (internal_claims user)
    → read (build_downstream_headers (sign (internal_claims user)) correlation_id).authorization
      ≡ some (record { sub = some user.user_id; roles = some (user.role ∷ []) })
unfolding build_downstream_headers internal_claims
claims_read sign read user correlation_id reads = reads

module _ (config : String → Option String) (sign : InternalClaims → String)
    (read : String → Option TokenClaims) (is_uuid : String → Bool) (services : Services)
    (env : Env) where
  -- An order that is placed through the gateway, whatever the caller's role, is the caller's own:
  -- the order service gets the request, and either refuses it and changes nothing, or adds one
  -- order, whose customer is the user of the token. The address of the order service is configured,
  -- and it reads the token that the gateway signs for this user.
  pub gateway_order-IsOwn :
      (body : CreateOrderDto) (req : TypedRequest) (user : GatewayUser) (base : String) (s : Store)
      → req.user ≡ some user
      → truthy (config "ORDER_SERVICE_URL") ≡ some base
      → Reads sign read (internal_claims user)
      → (r : Result RouteError CreatedOrder × Store) × (order_through read is_uuid services env
            config sign body req s
          ≡ some r)
        × IsOwn user.user_id s r
  unfolding order_through serve_order get_user order_body
  gateway_order-IsOwn body req user base s known configured reads =
      let d = order_request base sign body req in
      let same : get_user req ≡ user = ground arith in
      let there = sent-create_order config sign body req base configured in
      let orders : Routes.Request = record {
        token = read d.headers.authorization;
        correlation_id = some d.headers.correlation_id;
      } in
      let payload : OrderPayload = record {
        order = body;
        customer_user_id = (get_user req).user_id;
      } in
      let token =
        claims_read sign read (get_user req) (get_correlation_id req)
          (subst (λ v. Reads sign read (internal_claims v)) (sym same) reads) in
      (
        serve_order read is_uuid services env d s,
        ap (λ o. elim o [ none ↦ none | some q ↦ some (serve_order read is_uuid services env q s) ])
            there,
        post_order-IsOwn is_uuid services env (order_body payload) orders s user.user_id
            (ap (λ u. some u.user_id) same)
            (λ u passed.
              ap (λ o. get_or o "")
                (sym (
                  admit-sub create_roles orders
                    (record {
                      sub = some (get_user req).user_id;
                      roles = some ((get_user req).role ∷ []);
                    })
                    u token passed))
              ∙ ap (λ v. v.user_id) same),
      )

  -- What the gateway takes and the order service does not: notes on an order, and an order without
  -- an address. Each such request is refused by the order service, whoever sends it, and changes
  -- nothing. The address of the order service is configured.
  pub gateway_takes_more :
      (body : CreateOrderDto) (req : TypedRequest) (base : String) (s : Store)
      → truthy (config "ORDER_SERVICE_URL") ≡ some base
      → ((notes : String) × (body.notes ≡ some notes)) ⊎ (body.shipping_address_id ≡ none)
      → (e : RouteError) × (order_through read is_uuid services env config sign body req s
          ≡ some (err e, s))
  unfolding order_through serve_order order_body
  gateway_takes_more body req base s configured extra =
      let d = order_request base sign body req in
      let there = sent-create_order config sign body req base configured in
      let orders : Routes.Request = record {
        token = read d.headers.authorization;
        correlation_id = some d.headers.correlation_id;
      } in
      let payload : OrderPayload = record {
        order = body;
        customer_user_id = (get_user req).user_id;
      } in
      elim (post_order_cases is_uuid services env (order_body payload) orders s) [
        | inl (e, refused) ↦ (
          e,
          ap
                (λ o. elim o [
                  | none ↦ none
                  | some q ↦ some (serve_order read is_uuid services env q s)
                ])
                there
              ∙ ap some refused,
        )
        | inr (user, dto, _, valid, _) ↦
            let (known, address) = validate_body-refused is_uuid (order_body payload) dto valid in
            elim extra [
              | inl (notes, written) ↦ absurd (ground arith)
              | inr missing ↦ absurd (ground arith)
            ]
      ]
