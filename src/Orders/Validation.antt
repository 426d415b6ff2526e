-- ===== src/Orders/Validation.antt =====
-- The checks of order-service/src/modules/validation/validation.service.ts: what the user service
-- and the product service answer is a parameter.
use ecommerce_microservices.Common.{
  ℕ, String, Option, none, some, List, [], ◌∷◌, map, if◌then◌else◌, is_some, truthy, or_else,
  Result, ok, err,
}
use ecommerce_microservices.Orders.Entities.{
  CreateOrderItemDto, OrderError, user_not_found, user_unavailable, address_not_found,
  address_unavailable, products_missing, products_unavailable, product_not_found,
  product_unavailable,
}

-- The answer to a request: a client that throws, or a body.
pub data Http (A : Type 0) : Type 0 where
  unavailable : Http A
  answered : A → Http A

-- A body that is `null` or has no `id` stands for an object that is not there.
pub record Identified : Type 0 where
  pub id : Option String

pub record Product : Type 0 where
  pub id : Option String
  pub name : String
  pub price : ℕ
  pub sku : Option String

-- The other services: `missing` is absent where the body has no such array.
pub record Services : Type 0 where
  pub user : String → Http (Option Identified)
  pub address : String → String → Http (Option Identified)
  pub exists : List String → Http (Option (List String))
  pub product : String → Http (Option Product)

pub record ValidatedOrderItem : Type 0 where
  pub item : CreateOrderItemDto
  pub validated_price : ℕ
  pub validated_name : String
  pub validated_sku : Option String

abbrev pub Checked : Type 0 → Type 0
Checked A = Result OrderError A

-- The body of an answer, if it has an identifier.
identified :
    {A : Type 0} → (A → Option String) → OrderError → OrderError → Http (Option A) → Checked A
identified id missing failed unavailable = err failed
identified id missing failed (answered none) = err missing
identified id missing failed (answered (some a)) =
    if is_some (truthy (id a)) then ok a else err missing

-- `p.sku || product.sku`
chosen_sku : CreateOrderItemDto → Product → Option String
chosen_sku p product = or_else (truthy p.sku) product.sku

module _ (services : Services) where
  unfoldable pub validate_user : String → Checked Identified
  unfolding identified
  validate_user user_id =
      identified (λ u. u.id) (user_not_found user_id) (user_unavailable user_id)
        (services.user user_id)

  unfoldable pub validate_address : String → String → Checked Identified
  unfolding identified
  validate_address user_id address_id =
      identified (λ a. a.id) (address_not_found address_id user_id) (address_unavailable address_id)
        (services.address user_id address_id)

  -- The client's own price is not read.
  unfoldable pub price_product : CreateOrderItemDto → Checked ValidatedOrderItem
  unfolding identified chosen_sku
  price_product p =
      elim (identified (λ q. q.id) (product_not_found p.product_id)
        (product_unavailable p.product_id) (services.product p.product_id)) [
          | err e ↦ err e
          | ok product ↦ ok (record {
            item = p;
            validated_price = product.price;
            validated_name = product.name;
            validated_sku = chosen_sku p product;
          })
        ]

  -- `Promise.all`: of several that fail, the first of the list is taken here.
  unfoldable pub price_products : List CreateOrderItemDto → Checked (List ValidatedOrderItem)
  unfolding price_product
  price_products [] = ok []
  price_products (p ∷ products) =
      let rest = price_products products in
      elim (price_product p) [
        | err e ↦ err e
        | ok item ↦ elim rest [ err e ↦ err e | ok items ↦ ok (item ∷ items) ]
      ]

  unfoldable pub check_existence : List String → Checked (Unit {0})
  check_existence ids = elim (services.exists ids) [
    | unavailable ↦ err products_unavailable
    | answered none ↦ ok tt
    | answered (some []) ↦ ok tt
    | answered (some (id ∷ missing)) ↦ err (products_missing (id ∷ missing))
  ]

  unfoldable pub validate_and_price_products :
      List CreateOrderItemDto → Checked (List ValidatedOrderItem)
  unfolding check_existence price_products
  validate_and_price_products products = elim (check_existence (map (λ p. p.product_id) products)) [
    | err e ↦ err e
    | ok _ ↦ price_products products
  ]
