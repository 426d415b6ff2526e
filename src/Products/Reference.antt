-- ===== src/Products/Reference.antt =====
-- The product service as its callers see it: the requests that
-- product-service/src/application/product.service.ts serves, and the same service with no cache.
use ecommerce_microservices.Common.{
  any, ◌||◌, String, Bool, not, none, some, List, [], ◌∷◌, ◌++◌, if◌then◌else◌, ◌==◌, update_where,
  Result, ok, err,
}
use ecommerce_microservices.Products.Entities.{
  Product, Price, CreateProductDto, UpdateProductDto, ListParams, PaginatedResult, Store,
  ProductError, product_not_found, query_failed, Env,
}
use ecommerce_microservices.Products.Service.{
  by_id, find_by_id, find_price_by_id, new_product, create, assign, update,
}
use ecommerce_microservices.Products.Service.Lists
use ecommerce_microservices.Products.Service.Lists.{find_many}
use ecommerce_microservices.Products.Coherence.{itself, price_of, answer_of}

pub data Request : Type 0 where
  show : String → Request
  price : String → Request
  listing : ListParams → Request
  add : CreateProductDto → Request
  change : String → UpdateProductDto → Request

pub data Reply : Type 0 where
  product : Result ProductError Product → Reply
  priced : Result ProductError Price → Reply
  page : Result ProductError PaginatedResult → Reply

module _ (ilike : String → String → Bool) where
  -- The service.
  abbrev pub serve : Env → Request → Store → Reply × Store
  serve env (show id) s = let (r, t) = find_by_id env id s in (product r, t)
  serve env (price id) s = let (r, t) = find_price_by_id env id s in (priced r, t)
  serve env (listing params) s = let (r, t) = Lists.list ilike env params s in (page r, t)
  serve env (add dto) s = let (r, t) = create env dto s in (product r, t)
  serve env (change id dto) s = let (r, t) = update env id dto s in (product r, t)

  -- An insert of a row, whose `sku` is unique.
  abbrev pub insert_row : Env → CreateProductDto → List Product → Reply × List Product
  insert_row env dto products =
      if not env.saved || any (λ p. p.sku == dto.sku) products
      then (product (err query_failed), products)
      else (product (ok (new_product env dto)), products ++ new_product env dto ∷ [])

  -- The row of an identifier, with the fields that the request gives.
  abbrev pub change_row : Env → UpdateProductDto → String → List Product → Reply × List Product
  change_row env dto id products = elim (by_id id products) [
    | none ↦ (product (err (product_not_found id)), products)
    | some p ↦
        if env.saved
        then (
          product (ok (assign env dto p)),
          update_where (λ q. q.id == (assign env dto p).id) (λ q. assign env dto p) products,
        )
        else (product (err query_failed), products)
  ]

  -- The service on the table alone.
  abbrev pub reference : Env → Request → List Product → Reply × List Product
  reference env (show id) products = (product (answer_of itself id products), products)
  reference env (price id) products = (priced (answer_of price_of id products), products)
  reference env (listing params) products = (page (ok (find_many ilike params products)), products)
  reference env (add dto) products = insert_row env dto products
  reference env (change id dto) products = change_row env dto id products

  -- The replies to a sequence of requests, and what is left in the end.
  abbrev pub serve_all : List (Env × Request) → Store → List Reply × Store
  serve_all [] s = ([], s)
  serve_all ((env, req) ∷ requests) s =
      let (r, t) = serve env req s in let (rs, u) = serve_all requests t in (r ∷ rs, u)

  abbrev pub reference_all : List (Env × Request) → List Product → List Reply × List Product
  reference_all [] products = ([], products)
  reference_all ((env, req) ∷ requests) products =
      let (r, changed) = reference env req products in
      let (rs, last) = reference_all requests changed in (r ∷ rs, last)
