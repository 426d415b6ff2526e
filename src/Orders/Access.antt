-- ===== src/Orders/Access.antt =====
-- Who may call what: order-service/src/common/guards/roles.guard.ts, and the roles that
-- order-service/src/modules/order/order.controller.ts names for each of its routes.
pub mod Laws
use ecommerce_microservices.Common.{
  String, Bool, true, false, Option, none, some, List, [], ◌∷◌, if◌then◌else◌, not, get_or, any,
  includes, ◌==◌, ◌&&◌, Result, ok, err,
}
use ecommerce_microservices.Orders.Entities.{CreateOrderDto, JwtPayload}

pub data Denial : Type 0 where
  no_user_context : Denial
  roles_required : List String → List String → Denial

-- The guard, on the roles that the handler or its class requires.
unfoldable pub can_activate : Option (List String) → Option JwtPayload → Result Denial (Unit {0})
can_activate none user = ok tt
can_activate (some []) user = ok tt
can_activate (some (role ∷ required)) none = err no_user_context
can_activate (some (role ∷ required)) (some user) =
    let roles = get_or user.roles [] in
    if includes roles "admin"
    then ok tt
    else if any (includes roles) (role ∷ required)
    then ok tt
    else err (roles_required (role ∷ required) roles)

abbrev pub create_roles : List String
create_roles = "customer" ∷ "admin" ∷ []

-- Reading one order, listing orders and cancelling an order.
abbrev pub order_roles : List String
order_roles = "customer" ∷ "staff" ∷ "admin" ∷ []

-- The controller's `createOrder`: a customer orders for no one else.
unfoldable pub own_order : CreateOrderDto → JwtPayload → CreateOrderDto
own_order dto user =
    if includes (get_or user.roles []) "customer" && not (dto.customer_user_id == user.sub)
    then record dto { customer_user_id = user.sub }
    else dto
