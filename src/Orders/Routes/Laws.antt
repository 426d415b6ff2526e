-- ===== src/Orders/Routes/Laws.antt =====
-- `POST /orders` (order-service/src/modules/order/order.controller.ts), with its guards and the
-- validation of its body.
use ecommerce_microservices.Common.{
  String, Bool, ◌≡◌, refl, sym, ap, ◌∙◌, ◌⊎◌, inl, inr, some, [], ◌∷◌, ◌++◌, arith, get_or, truthy,
  List, Result, ok, err, subst, Option-cases, Result-cases,
}
use ecommerce_microservices.Orders.Entities.{
  Order, CreateOrderDto, JwtPayload, Store, OrderError, Env,
}
use ecommerce_microservices.Orders.Validation.{Services}
use ecommerce_microservices.Orders.Service.{CreatedOrder, create_order}
use ecommerce_microservices.Orders.Service.Creation.{CreateOutcome, create_order-CreateOutcome}
use ecommerce_microservices.Orders.Access.{can_activate, create_roles, own_order}
use ecommerce_microservices.Orders.Routes.{
  RouteError, TokenClaims, Request, validate, admit, OrderBody, validate_body, run, post_order,
}

-- A request that is refused changes nothing; one that is served adds one order, of the customer.
abbrev pub IsOwn : String → Store → Result RouteError CreatedOrder × Store → Type 0
IsOwn customer s (ok created, s') =
    (order : Order) × (s'.orders ≡ s.orders ++ order ∷ [])
    × (order.id ≡ created.order_id)
    × (order.customer_user_id ≡ customer)
IsOwn customer s (err _, s') = s' ≡ s

run-IsOwn :
    (services : Services) (dto : CreateOrderDto) (s : Store)
    (r : Result OrderError CreatedOrder × Store)
    → CreateOutcome services dto s r
    → IsOwn dto.customer_user_id s (run (λ _. r) s)
unfolding run
run-IsOwn services dto s (err e, s') unchanged = unchanged
run-IsOwn services dto s (ok created, s') (order, _, _, written, told, _, named, _, _, _, _, _) =
    (order, ap (λ t. t.orders) written, ap (λ c. c.order_id) (sym told), named)

pub post_order_cases :
    (is_uuid : String → Bool) (services : Services) (env : Env) (body : OrderBody) (req : Request)
    (s : Store)
    → ((e : RouteError) × (post_order is_uuid services env body req s ≡ (err e, s)))
      ⊎ ((user : JwtPayload) × (dto : CreateOrderDto) × (admit create_roles req ≡ ok user)
          × (validate_body is_uuid body ≡ ok dto)
          × (post_order is_uuid services env body req s
              ≡ run
                  (λ _. create_order services is_uuid env (own_order dto user) req.correlation_id s)
                  s))
unfolding post_order run
post_order_cases is_uuid services env body req s = elim (Result-cases (admit create_roles req)) [
  | inr (e, out) ↦ inl (e, ground arith)
  | inl (user, passed) ↦ elim (Result-cases (validate_body is_uuid body)) [
    | inr (e, out) ↦ inl (e, ground arith)
    | inl (dto, valid) ↦ inr (user, dto, passed, valid, ground arith)
  ]
]

validate_body-customer :
    (is_uuid : String → Bool) (body : OrderBody) (dto : CreateOrderDto)
    → validate_body is_uuid body ≡ ok dto
    → body.customer_user_id ≡ some dto.customer_user_id
unfolding validate_body
validate_body-customer is_uuid body dto valid = elim (Option-cases body.customer_user_id) [
  | inl missing ↦ absurd (ground arith)
  | inr (c, there) ↦ ground arith
]

own_order-same :
    (dto : CreateOrderDto) (user : JwtPayload)
    → dto.customer_user_id ≡ user.sub
    → (own_order dto user).customer_user_id ≡ user.sub
unfolding own_order
own_order-same dto user same = ground arith

-- Where the body names the caller.
pub post_order-IsOwn :
    (is_uuid : String → Bool) (services : Services) (env : Env) (body : OrderBody) (req : Request)
    (s : Store) (customer : String)
    → body.customer_user_id ≡ some customer
    → ((user : JwtPayload) → admit create_roles req ≡ ok user → user.sub ≡ customer)
    → IsOwn customer s (post_order is_uuid services env body req s)
post_order-IsOwn is_uuid services env body req s customer named caller =
    elim (post_order_cases is_uuid services env body req s) [
      | inl (e, refused) ↦ subst (IsOwn customer s) (sym refused) refl
      | inr (user, dto, passed, valid, served) ↦
          let own = own_order dto user in
          let sub = caller user passed in
          let same : some dto.customer_user_id ≡ some customer =
            sym (validate_body-customer is_uuid body dto valid) ∙ named in
          let kept : own.customer_user_id ≡ customer =
            own_order-same dto user (ap (λ o. get_or o "") same ∙ sym sub) ∙ sub in
          subst (IsOwn customer s) (sym served) (
            subst
              (λ c.
                IsOwn c s (run (λ _. create_order services is_uuid env own req.correlation_id s) s))
              kept
              (run-IsOwn services own s (create_order services is_uuid env own req.correlation_id s)
                (create_order-CreateOutcome services is_uuid env own req.correlation_id s)))
    ]

-- A body with a field that its class has not, or without an address, is always refused.
pub validate_body-refused :
    (is_uuid : String → Bool) (body : OrderBody) (dto : CreateOrderDto)
    → validate_body is_uuid body ≡ ok dto
    → (body.unknown ≡ []) × (body.shipping_address_id ≡ some dto.shipping_address_id)
unfolding validate_body
validate_body-refused is_uuid body dto valid = elim (Option-cases body.customer_user_id) [
  | inl missing ↦ absurd (ground arith)
  | inr (c, there) ↦ elim (Option-cases body.shipping_address_id) [
    | inl missing ↦ absurd (ground arith)
    | inr (a, here) ↦ (ground arith, ground arith)
  ]
]

-- The caller is the subject of the token.
pub admit-sub :
    (required : List String) (req : Request) (claims : TokenClaims) (user : JwtPayload)
    → req.token ≡ some claims
    → admit required req ≡ ok user
    → claims.sub ≡ some user.sub
unfolding admit validate
admit-sub required req claims user token passed = elim (Option-cases (truthy claims.sub)) [
  | inl blank ↦ absurd (ground arith)
  | inr (sub, there) ↦
      elim (Result-cases
        (can_activate (some required) (some (record { sub = sub; roles = claims.roles })))) [
          | inr (e, out) ↦ absurd (ground arith)
          | inl (_, fine) ↦ ground arith
        ]
]
