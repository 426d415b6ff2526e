-- ===== src/Orders/Service/Creation.antt =====
-- `createOrder` of order-service/src/modules/order/order.service.ts, on every branch.
use ecommerce_microservices.Common.{
  ℕ, suc, ◌+◌, ◌*◌, String, Bool, ◌≡◌, refl, sym, ap, ◌∙◌, ◌⊎◌, inl, inr, Option, some, List, [],
  ◌∷◌, ◌++◌, map, arith, Result, ok, err, subst, Result-cases,
}
use ecommerce_microservices.Orders.Entities.{
  Order, OrderItem, OrderStatus, Outbox, order_created, CreateOrderDto, CreateOrderItemDto, Store,
  OrderError, query_failed, Env,
}
use ecommerce_microservices.Orders.Validation.{
  answered, Product, Services, ValidatedOrderItem, validate_user, validate_address,
  validate_and_price_products, check_existence, price_products, price_product,
}
use ecommerce_microservices.Orders.Repository.{
  CreateOrderData, new_order, new_items, insert_order, outbox_row, create_entry,
  generate_order_number,
}
use ecommerce_microservices.Orders.Service.{
  total_from, order_item, transaction, CreatedOrder, correlation_of, order_data, write_order,
  create_order,
}

abbrev pub sum_of : List OrderItem → ℕ
sum_of [] = 0
sum_of (i ∷ items) = i.line_total + sum_of items

total_from-sum_of :
    (env : Env) (n sum : ℕ) (vs : List ValidatedOrderItem)
    → total_from sum vs ≡ sum + sum_of (new_items env n (map order_item vs))
unfolding total_from new_items order_item
total_from-sum_of env n sum [] = omega arith
total_from-sum_of env n sum (v ∷ vs) =
    omega (arith, total_from-sum_of env (suc n) (sum + v.validated_price * v.item.quantity) vs)

-- The price is the one that the product service gives for the product.
abbrev pub IsPriced : Services → OrderItem → Type 0
IsPriced services i =
    (product : Product) × (services.product i.product_id ≡ answered (some product))
    × (i.unit_price ≡ product.price)
    × (i.line_total ≡ i.unit_price * i.quantity)

-- The rows stand for the requested items, in their order.
abbrev pub AreItems : Services → String → List CreateOrderItemDto → List OrderItem → Type 0
AreItems services order_id [] [] = Unit
AreItems services order_id [] (_ ∷ _) = ⊥
AreItems services order_id (_ ∷ _) [] = ⊥
AreItems services order_id (p ∷ ps) (i ∷ items) =
    (i.order_id ≡ order_id)
    × (i.product_id ≡ p.product_id)
    × (i.quantity ≡ p.quantity)
    × IsPriced services i
    × AreItems services order_id ps items

price_product-ok :
    (services : Services) (p : CreateOrderItemDto) (v : ValidatedOrderItem)
    → price_product services p ≡ ok v
    → (v.item ≡ p)
      × ((product : Product) × (services.product p.product_id ≡ answered (some product))
          × (v.validated_price ≡ product.price))
unfolding price_product
price_product-ok services p v h = ground arith

price_products-cons :
    (services : Services) (p : CreateOrderItemDto) (ps : List CreateOrderItemDto)
    (v : ValidatedOrderItem) (vs : List ValidatedOrderItem)
    → price_products services (p ∷ ps) ≡ ok (v ∷ vs)
    → (price_product services p ≡ ok v) × (price_products services ps ≡ ok vs)
unfolding price_products
price_products-cons services p ps v vs h = ground arith

price_products-AreItems :
    (services : Services) (env : Env) (n : ℕ) (ps : List CreateOrderItemDto)
    (vs : List ValidatedOrderItem)
    → price_products services ps ≡ ok vs
    → AreItems services env.order_id ps (new_items env n (map order_item vs))
unfolding price_products new_items order_item
price_products-AreItems services env n [] [] h = tt
price_products-AreItems services env n [] (v ∷ vs) h = ground arith
price_products-AreItems services env n (p ∷ ps) [] h = ground arith
price_products-AreItems services env n (p ∷ ps) (v ∷ vs) h =
    let (priced, rest) = price_products-cons services p ps v vs h in
    let (same, (product, found, price)) = price_product-ok services p v priced in
    (
      refl,
      ap (λ q. q.product_id) same,
      ap (λ q. q.quantity) same,
      (product, ap (λ q. services.product q.product_id) same ∙ found, price, refl),
      price_products-AreItems services env (suc n) ps vs rest,
    )

transaction_cases :
    (env : Env) (input : CreateOrderData) (s : Store)
    → (transaction env (write_order env input) s ≡ (err query_failed, s))
      ⊎ (transaction env (write_order env input) s ≡ (
        ok (new_order env input),
        record s {
          orders = s.orders ++ new_order env input ∷ [];
          order_items = s.order_items ++ new_items env 0 input.items;
          outbox =
              s.outbox
              ++ outbox_row env env.order_id "OrderCreated"
                  (order_created (new_order env input) (new_items env 0 input.items))
                  (record { correlation_id = input.correlation_id; event_id = env.event_id })
                ∷ [];
        },
      ))
unfolding transaction write_order insert_order create_entry new_order
transaction_cases env input s = ground arith

-- The rows of an order, its items and its event, as they stand for the request.
abbrev pub IsCreated : Services → CreateOrderDto → CreatedOrder → Store → Store → Type 0
IsCreated services dto created s s' =
    (order : Order) × (items : List OrderItem) × (row : Outbox) × (s' ≡ record s {
      orders = s.orders ++ order ∷ [];
      order_items = s.order_items ++ items;
      outbox = s.outbox ++ row ∷ [];
    })
    × (created ≡ record {
      order_id = order.id;
      status = OrderStatus.pending;
      order_number = order.order_number;
    })
    × (order.status ≡ OrderStatus.pending)
    × (order.customer_user_id ≡ dto.customer_user_id)
    × (order.total_amount ≡ sum_of items)
    × AreItems services order.id dto.items items
    × (row.aggregate_id ≡ order.id)
    × (row.event_type ≡ "OrderCreated")
    × (row.payload ≡ order_created order items)

abbrev pub CreateOutcome :
    Services → CreateOrderDto → Store → Result OrderError CreatedOrder × Store → Type 0
CreateOutcome services dto s (ok created, s') = IsCreated services dto created s s'
CreateOutcome services dto s (err e, s') = s' ≡ s

abbrev pub receipt : Order → CreatedOrder
receipt order = record {
  order_id = order.id;
  status = OrderStatus.pending;
  order_number = order.order_number;
}

-- The end of `createOrder`, from what the transaction comes to.
abbrev pub finish : Result OrderError Order × Store → Result OrderError CreatedOrder × Store
finish (ok order, s) = (ok (receipt order), s)
finish (err e, s) = (err e, s)

abbrev pub input_of :
    (String → Bool)
    → Env
    → CreateOrderDto
    → Option String
    → Store
    → List ValidatedOrderItem
    → CreateOrderData
input_of is_uuid env dto correlation_id s validated =
    order_data dto (generate_order_number env s) (correlation_of env is_uuid correlation_id)
      validated

placed-CreateOutcome :
    (services : Services) (is_uuid : String → Bool) (env : Env) (dto : CreateOrderDto)
    (correlation_id : Option String) (s : Store) (validated : List ValidatedOrderItem)
    → price_products services dto.items ≡ ok validated
    → CreateOutcome services dto s (
        finish (
          transaction env
            (write_order env (input_of is_uuid env dto correlation_id s validated))
            s))
unfolding new_order order_data outbox_row
placed-CreateOutcome services is_uuid env dto correlation_id s validated priced =
    let input = input_of is_uuid env dto correlation_id s validated in
    elim (transaction_cases env input s) [
      | inl refused ↦ subst (λ r. CreateOutcome services dto s (finish r)) (sym refused) refl
      | inr written ↦
          subst (λ r. CreateOutcome services dto s (finish r)) (sym written)
            (
              new_order env input,
              new_items env 0 input.items,
              _,
              refl,
              refl,
              refl,
              refl,
              omega (arith, total_from-sum_of env 0 0 validated),
              price_products-AreItems services env 0 dto.items validated priced,
              refl,
              refl,
              refl,
            )
    ]

pub create_order_cases :
    (services : Services) (is_uuid : String → Bool) (env : Env) (dto : CreateOrderDto)
    (correlation_id : Option String) (s : Store)
    → ((e : OrderError) × (create_order services is_uuid env dto correlation_id s ≡ (err e, s)))
      ⊎ ((validated : List ValidatedOrderItem) × (price_products services dto.items ≡ ok validated)
          × (create_order services is_uuid env dto correlation_id s
              ≡ finish (
                  transaction env
                    (write_order env (input_of is_uuid env dto correlation_id s validated))
                    s)))
unfolding create_order validate_and_price_products
create_order_cases services is_uuid env dto correlation_id s =
    elim (Result-cases (validate_user services dto.customer_user_id)) [
      | inr (e, failed) ↦ inl (e, ground arith)
      | inl (user, known) ↦
          elim (Result-cases
            (validate_address services dto.customer_user_id dto.shipping_address_id)) [
              | inr (e, failed) ↦ inl (e, ground arith)
              | inl (address, found) ↦
                  elim (Result-cases
                    (check_existence services (map (λ p. p.product_id) dto.items))) [
                      | inr (e, failed) ↦ inl (e, ground arith)
                      | inl (_, exist) ↦ elim (Result-cases (price_products services dto.items)) [
                        | inr (e, failed) ↦ inl (e, ground arith)
                        | inl (validated, priced) ↦ inr (validated, priced, ground arith)
                      ]
                    ]
            ]
    ]

-- An order is created with its items and its event, or nothing is. The items are the requested ones
-- at the prices of the product service, and the total is the sum of their lines.
pub create_order-CreateOutcome :
    (services : Services) (is_uuid : String → Bool) (env : Env) (dto : CreateOrderDto)
    (correlation_id : Option String) (s : Store)
    → CreateOutcome services dto s (create_order services is_uuid env dto correlation_id s)
create_order-CreateOutcome services is_uuid env dto correlation_id s =
    elim (create_order_cases services is_uuid env dto correlation_id s) [
      | inl (e, failed) ↦ subst (CreateOutcome services dto s) (sym failed) refl
      | inr (validated, priced, placed) ↦
          subst (CreateOutcome services dto s) (sym placed)
            (placed-CreateOutcome services is_uuid env dto correlation_id s validated priced)
    ]
