-- ===== src/Orders/Access/Laws.antt =====
-- The roles of the guard and of the service, taken together.
use ecommerce_microservices.Common.{
  String, Bool, true, false, ◌≡◌, ◌≢◌, refl, sym, ap, ◌∙◌, inl, inr, Option, some, [], ◌∷◌, ◌++◌,
  arith, ◌==◌, eq_iff, get_or, includes, Result, ok, err, Bool-cases,
}
use ecommerce_microservices.Orders.Entities.{
  Order, CreateOrderDto, JwtPayload, Store, access_denied, OrderError, Env,
}
use ecommerce_microservices.Orders.Validation.{Services}
use ecommerce_microservices.Orders.Repository.{find_by_id}
use ecommerce_microservices.Orders.Service.{
  is_admin_or_support, may_access, CreatedOrder, create_order, get_order, cancel_order,
}
use ecommerce_microservices.Orders.Service.Creation.{CreateOutcome, create_order-CreateOutcome}
use ecommerce_microservices.Orders.Access.{can_activate, order_roles, own_order}

-- A member of the staff passes the guard of the routes for orders, but can neither read nor cancel
-- an order of a customer.
pub staff_denied :
    (env : Env) (user : JwtPayload) (reason : Option String) (order : Order) (s : Store)
    → user.roles ≡ some ("staff" ∷ [])
    → find_by_id order.id s ≡ some order
    → order.customer_user_id ≢ user.sub
    → (can_activate (some order_roles) (some user) ≡ ok tt)
      × (get_order order.id user s ≡ (err access_denied, s))
      × (cancel_order env order.id user reason s ≡ (err access_denied, s))
unfolding can_activate get_order cancel_order may_access is_admin_or_support
staff_denied env user reason order s staff found other =
    let foreign : (order.customer_user_id == user.sub) ≡ false =
      elim (Bool-cases (order.customer_user_id == user.sub)) [
        | inl own ↦ absurd (other ((eq_iff order.customer_user_id user.sub).0 own))
        | inr differs ↦ differs
      ] in
    let denied : may_access order user ≡ false = rw (staff, may_access, foreign) refl in
    (rw (staff, can_activate) refl, ground arith, ground arith)

own_order-sub :
    (dto : CreateOrderDto) (user : JwtPayload)
    → includes (get_or user.roles []) "customer" ≡ true
    → (own_order dto user).customer_user_id ≡ user.sub
unfolding own_order
own_order-sub dto user customer = elim (Bool-cases (dto.customer_user_id == user.sub)) [
  | inl own ↦ rw (customer, own_order, own) ((eq_iff dto.customer_user_id user.sub).0 own)
  | inr other ↦ rw (customer, own_order, other) refl
]

abbrev pub IsOrderOf : String → Store → Result OrderError CreatedOrder × Store → Type 0
IsOrderOf customer s (ok created, s') =
    (order : Order) × (s'.orders ≡ s.orders ++ order ∷ [])
    × (order.id ≡ created.order_id)
    × (order.customer_user_id ≡ customer)
IsOrderOf customer s (err _, s') = s' ≡ s

-- Whatever customer a request of a customer names, the order is the caller's own.
pub customer_orders_own :
    (services : Services) (is_uuid : String → Bool) (env : Env) (dto : CreateOrderDto)
    (user : JwtPayload) (correlation_id : Option String) (s : Store)
    → includes (get_or user.roles []) "customer" ≡ true
    → IsOrderOf user.sub s (create_order services is_uuid env (own_order dto user) correlation_id s)
customer_orders_own services is_uuid env dto user correlation_id s customer =
    let own = own_order dto user in
    place (create_order services is_uuid env own correlation_id s)
      (create_order-CreateOutcome services is_uuid env own correlation_id s)
  where
    place :
        (r : Result OrderError CreatedOrder × Store)
        → CreateOutcome services (own_order dto user) s r
        → IsOrderOf user.sub s r
    place (err e, s') unchanged = unchanged
    place (ok created, s') (order, _, _, written, receipt, _, named, _, _, _, _, _) = (
      order,
      ap (λ t. t.orders) written,
      ap (λ c. c.order_id) (sym receipt),
      named ∙ own_order-sub dto user customer,
    )
