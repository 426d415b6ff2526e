-- ===== src/Shop/Placement.antt =====
-- The checks of order-service/src/modules/validation/validation.service.ts, answered by the routes of
-- the user service (user-service/src/interface/http/controllers/user.controller.ts) and of the
-- product service (product-service/src/interface/http/product.controller.ts). The HTTP client
-- throws where a service answers with an error.
use ecommerce_microservices.Common.{
  ◌*◌, String, Bool, true, ◌≡◌, refl, sym, ap, ◌∙◌, inl, inr, Option, none, some, List, [], ◌∷◌,
  ◌++◌, arith, ◌==◌, Result, ok, err, Result-cases, Option-cases, Bool-cases, eq_iff, find, All,
}
use ecommerce_microservices.Users.Entities as UserEntities
use ecommerce_microservices.Users.Accounts as Accounts
use ecommerce_microservices.Users.Addresses as Addresses
use ecommerce_microservices.Users.Routes as UserRoutes
use ecommerce_microservices.Products.Entities as ProductEntities
use ecommerce_microservices.Products.Service as Catalog
use ecommerce_microservices.Products.Coherence.{IsCoherent, find_by_id-answer}
use ecommerce_microservices.Products.Routes as ProductRoutes
use ecommerce_microservices.Orders.Entities.{
  Order, OrderItem, CreateOrderDto, CreateOrderItemDto, Store, OrderError, Env,
}
use ecommerce_microservices.Orders.Validation.{
  Http, unavailable, answered, Identified, Product, Services, validate_user, validate_address,
}
use ecommerce_microservices.Orders.Service.{CreatedOrder, create_order}
use ecommerce_microservices.Orders.Service.Creation.{
  AreItems, CreateOutcome, create_order-CreateOutcome,
}

module _ (users : UserEntities.Store) (catalog : ProductEntities.Store)
    (clock : ProductEntities.Env) (is_uuid : String → Bool) where
  -- GET /users/:id
  user_of : String → Http (Option Identified)
  user_of id = elim (UserRoutes.get_by_id id users).0 [
    | err _ ↦ unavailable
    | ok u ↦ answered (some (record { id = some u.id }))
  ]

  -- GET /users/:id/addresses/:addressId
  address_of : String → String → Http (Option Identified)
  address_of user_id id = elim (UserRoutes.get_one_address user_id id users).0 [
    | err _ ↦ unavailable
    | ok a ↦ answered (some (record { id = some a.id }))
  ]

  -- POST /products/exists
  missing_of : List String → Http (Option (List String))
  missing_of ids = elim (ProductRoutes.post_exists (some ids) none none catalog).0 [
    | err _ ↦ unavailable
    | ok e ↦ answered (some e.missing)
  ]

  -- GET /products/:id
  product_of : String → Http (Option Product)
  product_of id = elim (ProductRoutes.get_product is_uuid clock id none catalog).0 [
    | err _ ↦ unavailable
    | ok p ↦
        answered
          (some (record { id = some p.id; name = p.name; price = p.price; sku = some p.sku }))
  ]

  pub services_of : Services
  unfolding user_of address_of missing_of product_of
  services_of = record {
    user = user_of;
    address = address_of;
    exists = missing_of;
    product = product_of;
  }

  -- The customer and the address are in the tables, and the address is the customer's.
  abbrev pub IsForCustomer : CreateOrderDto → Type 0
  IsForCustomer dto =
      ((u : UserEntities.User) × (Accounts.by_id dto.customer_user_id users ≡ some u))
      × ((a : UserEntities.Address) × (find (λ x. x.id == dto.shipping_address_id) users.addresses
            ≡ some a)
          × (a.user_id ≡ dto.customer_user_id))

  -- The price of an item is the price of its product in the table.
  abbrev pub IsCharged : OrderItem → Type 0
  IsCharged i =
      (p : ProductEntities.Product) × (Catalog.by_id i.product_id catalog.products ≡ some p)
      × (i.unit_price ≡ p.price)
      × (i.line_total ≡ p.price * i.quantity)

  user_of-known :
      (id : String) (u : Identified)
      → validate_user services_of id ≡ ok u
      → (v : UserEntities.User) × (Accounts.by_id id users ≡ some v)
  unfolding validate_user services_of UserRoutes.get_by_id UserRoutes.run Accounts.find_by_id
  user_of-known id u valid = elim (Option-cases (Accounts.by_id id users)) [
    | inl missing ↦ absurd (ground arith)
    | inr found ↦ found
  ]

  address_of-known :
      (user_id id : String) (a : Identified)
      → validate_address services_of user_id id ≡ ok a
      → (b : UserEntities.Address) × (find (λ x. x.id == id) users.addresses ≡ some b)
        × (b.user_id ≡ user_id)
  unfolding validate_address services_of UserRoutes.get_one_address Addresses.get_address
  address_of-known user_id id a valid =
      elim (Option-cases (find (λ x. x.id == id) users.addresses)) [
        | inl missing ↦ absurd (ground arith)
        | inr (b, found) ↦ elim (Bool-cases (b.user_id == user_id)) [
          | inr other ↦ absurd (ground arith)
          | inl own ↦ (b, found, (eq_iff b.user_id user_id).0 own)
        ]
      ]

  product_of-known :
      (id : String) (q : Product)
      → clock.cache_read ≡ true
      → clock.cache_written ≡ true
      → IsCoherent catalog
      → services_of.product id ≡ answered (some q)
      → (p : ProductEntities.Product) × (Catalog.by_id id catalog.products ≡ some p)
        × (q.price ≡ p.price)
  unfolding services_of ProductRoutes.get_product ProductRoutes.run ProductRoutes.admit
      ProductRoutes.jwt_guard ProductRoutes.roles_guard ProductRoutes.from_entity
  product_of-known id q reads written coherent told =
      let right = (find_by_id-answer clock id catalog reads written coherent).0 in
      elim (Option-cases (Catalog.by_id id catalog.products)) [
        | inl missing ↦ absurd (ground arith)
        | inr (p, found) ↦ elim (Bool-cases (is_uuid id)) [
          | inr bad ↦ absurd (ground arith)
          | inl good ↦ (p, found, ground arith)
        ]
      ]

  items-IsCharged :
      (order_id : String) (ps : List CreateOrderItemDto) (items : List OrderItem)
      → clock.cache_read ≡ true
      → clock.cache_written ≡ true
      → IsCoherent catalog
      → AreItems services_of order_id ps items
      → All IsCharged items
  items-IsCharged order_id [] [] reads written coherent h = tt
  items-IsCharged order_id [] (i ∷ items) reads written coherent h = absurd h
  items-IsCharged order_id (p ∷ ps) [] reads written coherent h = absurd h
  items-IsCharged order_id (p ∷ ps) (i ∷ items) reads written coherent
        (_, _, _, (product, told, price, line), rest) =
      let (row, found, same) = product_of-known i.product_id product reads written coherent told in
      (
        (row, found, price ∙ same, line ∙ ap (λ n. n * i.quantity) (price ∙ same)),
        items-IsCharged order_id ps items reads written coherent rest,
      )

  abbrev pub IsPlaced : CreateOrderDto → Store → Result OrderError CreatedOrder × Store → Type 0
  IsPlaced dto s (err _, s') = s' ≡ s
  IsPlaced dto s (ok created, s') =
      IsForCustomer dto
      × ((order : Order) × (items : List OrderItem) × (s'.orders ≡ s.orders ++ order ∷ [])
          × (s'.order_items ≡ s.order_items ++ items)
          × (order.id ≡ created.order_id)
          × (order.customer_user_id ≡ dto.customer_user_id)
          × All IsCharged items)

  checked-ok :
      (env : Env) (dto : CreateOrderDto) (correlation_id : Option String) (s s' : Store)
      (created : CreatedOrder)
      → create_order services_of is_uuid env dto correlation_id s ≡ (ok created, s')
      → IsForCustomer dto
  unfolding create_order
  checked-ok env dto correlation_id s s' created placed =
      elim (Result-cases (validate_user services_of dto.customer_user_id)) [
        | inr (e, failed) ↦ absurd (ground arith)
        | inl (user, known) ↦
            elim (Result-cases
              (validate_address services_of dto.customer_user_id dto.shipping_address_id)) [
                | inr (e, failed) ↦ absurd (ground arith)
                | inl (address, found) ↦ (
                  user_of-known dto.customer_user_id user known,
                  address_of-known dto.customer_user_id dto.shipping_address_id address found,
                )
              ]
      ]

  place :
      (env : Env) (dto : CreateOrderDto) (correlation_id : Option String) (s : Store)
      (r : Result OrderError CreatedOrder × Store)
      → create_order services_of is_uuid env dto correlation_id s ≡ r
      → clock.cache_read ≡ true
      → clock.cache_written ≡ true
      → IsCoherent catalog
      → CreateOutcome services_of dto s r
      → IsPlaced dto s r
  place env dto correlation_id s (err e, s') eq reads written coherent h = h
  place env dto correlation_id s (ok created, s') eq reads written coherent
        (order, items, _, left, receipt, _, named, _, priced, _, _, _) =
      (
        checked-ok env dto correlation_id s s' created eq,
        (
          order,
          items,
          ap (λ t. t.orders) left,
          ap (λ t. t.order_items) left,
          ap (λ c. c.order_id) (sym receipt),
          named,
          items-IsCharged order.id dto.items items reads written coherent priced,
        ),
      )

  -- An order that is created with the answers of the user service and of the product service is for
  -- a customer in the table of users, with an address of that customer, and each of its items costs
  -- what the table of products says; an order that is refused changes nothing. The cache of
  -- products answers and is coherent.
  pub create_order-IsPlaced :
      (env : Env) (dto : CreateOrderDto) (correlation_id : Option String) (s : Store)
      → clock.cache_read ≡ true
      → clock.cache_written ≡ true
      → IsCoherent catalog
      → IsPlaced dto s (create_order services_of is_uuid env dto correlation_id s)
  create_order-IsPlaced env dto correlation_id s reads written coherent =
      place env dto correlation_id s (create_order services_of is_uuid env dto correlation_id s)
        refl reads written coherent
        (create_order-CreateOutcome services_of is_uuid env dto correlation_id s)
