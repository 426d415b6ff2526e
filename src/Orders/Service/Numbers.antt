-- ===== src/Orders/Service/Numbers.antt =====
-- The numbers of orders (order-service/src/modules/order/order.repository.ts) and their index.
use ecommerce_microservices.Common.{
  ℕ, ◌<◌, String, Bool, true, false, ◌≡◌, refl, sym, ap, ◌∙◌, inl, inr, Option, List, [], ◌∷◌,
  arith, leb, filter, length, All, subst, err, succeeded,
}
use ecommerce_microservices.Orders.Entities.{Order, CreateOrderDto, Store, query_failed, Env}
use ecommerce_microservices.Orders.Validation.{Services}
use ecommerce_microservices.Orders.Repository.{
  CreateOrderData, insert_order, is_taken, number_of, generate_order_number,
}
use ecommerce_microservices.Orders.Service.Creation.{finish, input_of, create_order_cases}
use ecommerce_microservices.Orders.Service.{transaction, write_order, order_data, create_order}

taken-refused :
    (env : Env) (input : CreateOrderData) (s : Store)
    → is_taken input.order_number s ≡ true
    → transaction env (write_order env input) s ≡ (err query_failed, s)
unfolding transaction write_order insert_order
taken-refused env input s taken = ground arith

none_since :
    (start : ℕ) (orders : List Order)
    → All (λ o. o.created_at < start) orders
    → length (filter (λ o. leb start o.created_at) orders) ≡ 0
none_since start [] h = refl
none_since start (o ∷ orders) h = ground (arith, none_since start orders h.1)

-- If the first number of the date is taken and every order was created before the midnight of the
-- server, a call of `createOrder` throws and changes nothing, whatever it asks for.
pub new_day_blocked :
    (services : Services) (is_uuid : String → Bool) (env : Env) (dto : CreateOrderDto)
    (correlation_id : Option String) (s : Store)
    → All (λ o. o.created_at < env.start_of_day) s.orders
    → is_taken (number_of env.date 0) s ≡ true
    → (succeeded (create_order services is_uuid env dto correlation_id s).0 ≡ false)
      × ((create_order services is_uuid env dto correlation_id s).1 ≡ s)
unfolding generate_order_number order_data
new_day_blocked services is_uuid env dto correlation_id s before taken =
    let first : generate_order_number env s ≡ number_of env.date 0 =
      ap (number_of env.date) (none_since env.start_of_day s.orders before) in
    elim (create_order_cases services is_uuid env dto correlation_id s) [
      | inl (e, failed) ↦ (ap (λ r. succeeded r.0) failed, ap (λ r. r.1) failed)
      | inr (validated, priced, placed) ↦
          let refused =
            taken-refused env (input_of is_uuid env dto correlation_id s validated) s
              (subst (λ n. is_taken n s ≡ true) (sym first) taken) in
          let failed = placed ∙ ap finish refused in
          (ap (λ r. succeeded r.0) failed, ap (λ r. r.1) failed)
    ]
