-- ===== src/Products/Coherence/Changes.antt =====
-- The changes of product-service/src/application/product.service.ts, and the cache after them.
use ecommerce_microservices.Common.{
  any, ◌||◌, String, true, not, ◌≡◌, sym, ◌⊎◌, inl, inr, [], ◌∷◌, ◌++◌, arith, ◌==◌, update_where,
  subst, Result, ok, err, ◌>>=◌, Bool-cases,
}
use ecommerce_microservices.Products.Entities.{
  Product, CreateProductDto, UpdateProductDto, Store, ProductError, Env,
}
use ecommerce_microservices.Products.Service.{
  without, find_by_id, find_price_by_id, new_product, create, assign, save_product, update,
}
use ecommerce_microservices.Products.Cache.{shown-append, shown-replace}
use ecommerce_microservices.Products.Coherence.{
  itself, price_of, IsCoherent, find_by_id-answer, find_price_by_id-answer,
}

create_cases :
    (env : Env) (dto : CreateProductDto) (s : Store)
    → ((create env dto s).1 ≡ s)
      ⊎ ((create env dto s).1 ≡ record s { products = s.products ++ new_product env dto ∷ [] })
      ⊎ ((create env dto s).1
          ≡ record s { products = s.products ++ new_product env dto ∷ []; cached_lists = [] })
unfolding create
create_cases env dto s =
    elim (Bool-cases (not env.saved || any (λ p. p.sku == dto.sku) s.products)) [
      | inl refused ↦ inl (ground arith)
      | inr stored ↦ elim (Bool-cases env.lists_deleted) [
        | inr kept ↦ inr (inl (ground arith))
        | inl deleted ↦ inr (inr (ground arith))
      ]
    ]

grown-IsCoherent :
    (env : Env) (dto : CreateProductDto) (s : Store)
    → IsCoherent s
    → IsCoherent (record s { products = s.products ++ new_product env dto ∷ [] })
grown-IsCoherent env dto s h = (
  shown-append itself s.cached s.products (new_product env dto) h.0,
  shown-append price_of s.cached_prices s.products (new_product env dto) h.1,
)

-- Creating a product keeps the cache coherent, whether or not the call returns.
pub create-IsCoherent :
    (env : Env) (dto : CreateProductDto) (s : Store)
    → IsCoherent s
    → IsCoherent (create env dto s).1
create-IsCoherent env dto s h = elim (create_cases env dto s) [
  | inl same ↦ subst IsCoherent (sym same) h
  | inr (inl grown) ↦ subst IsCoherent (sym grown) (grown-IsCoherent env dto s h)
  | inr (inr grown) ↦ subst IsCoherent (sym grown) (grown-IsCoherent env dto s h)
]

-- The row saved, and its entries taken away.
abbrev pub replaced : Product → Store → Store
replaced product s = record s {
  products = update_where (λ p. p.id == product.id) (λ p. product) s.products;
  cached = without product.id s.cached;
  cached_prices = without product.id s.cached_prices;
}

save_product_cases :
    (env : Env) (product : Product) (s : Store)
    → env.cache_deleted ≡ true
    → ((save_product env product s).1 ≡ s)
      ⊎ ((save_product env product s).1 ≡ replaced product s)
      ⊎ ((save_product env product s).1 ≡ record (replaced product s) { cached_lists = [] })
unfolding save_product
save_product_cases env product s deleted = elim (Bool-cases env.saved) [
  | inr refused ↦ inl (ground arith)
  | inl stored ↦ elim (Bool-cases env.lists_deleted) [
    | inr kept ↦ inr (inl (ground arith))
    | inl cleared ↦ inr (inr (ground arith))
  ]
]

replaced-IsCoherent :
    (product : Product) (s : Store) → IsCoherent s → IsCoherent (replaced product s)
replaced-IsCoherent product s h = (
  shown-replace itself s.cached s.products product h.0,
  shown-replace price_of s.cached_prices s.products product h.1,
)

pub save_product-IsCoherent :
    (env : Env) (product : Product) (s : Store)
    → env.cache_deleted ≡ true
    → IsCoherent s
    → IsCoherent (save_product env product s).1
save_product-IsCoherent env product s deleted h = elim (save_product_cases env product s deleted) [
  | inl same ↦ subst IsCoherent (sym same) h
  | inr (inl stored) ↦ subst IsCoherent (sym stored) (replaced-IsCoherent product s h)
  | inr (inr stored) ↦ subst IsCoherent (sym stored) (replaced-IsCoherent product s h)
]

-- One operation of the service on single products.
pub data Operation : Type 0 where
  show : String → Operation
  price : String → Operation
  add : CreateProductDto → Operation
  change : String → UpdateProductDto → Operation

abbrev pub perform : Env → Operation → Store → Store
perform env (show id) s = (find_by_id env id s).1
perform env (price id) s = (find_price_by_id env id s).1
perform env (add dto) s = (create env dto s).1
perform env (change id dto) s = (update env id dto s).1

after_find :
    (env : Env) (dto : UpdateProductDto) (s : Store) (found : Result ProductError Product × Store)
    → env.cache_deleted ≡ true
    → IsCoherent found.1
    → IsCoherent (((λ u. found) >>= λ product. save_product env (assign env dto product)) s).1
after_find env dto s (err e, t) deleted h = h
after_find env dto s (ok product, t) deleted h =
    save_product-IsCoherent env (assign env dto product) t deleted h

-- Looking up a product or its price, creating and updating a product keep both caches of single
-- products coherent, whichever write to the database fails and whether or not the lists can be
-- cleared, if these caches answer.
pub perform-IsCoherent :
    (env : Env) (operation : Operation) (s : Store)
    → env.cache_read ≡ true
    → env.cache_written ≡ true
    → env.cache_deleted ≡ true
    → IsCoherent s
    → IsCoherent (perform env operation s)
unfolding update
perform-IsCoherent env (show id) s reads written deleted h =
    (find_by_id-answer env id s reads written h).1
perform-IsCoherent env (price id) s reads written deleted h =
    (find_price_by_id-answer env id s reads written h).1
perform-IsCoherent env (add dto) s reads written deleted h = create-IsCoherent env dto s h
perform-IsCoherent env (change id dto) s reads written deleted h =
    after_find env dto s (find_by_id env id s) deleted
      (find_by_id-answer env id s reads written h).1
