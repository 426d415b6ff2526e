-- ===== src/Products/Coherence.antt =====
-- The cache of product-service/src/application/product.service.ts beside its table.
pub mod Changes
use ecommerce_microservices.Common.{
  any, ◌||◌, ℕ, String, true, false, not, ◌≡◌, refl, sym, ap, ◌∙◌, ◌⊎◌, inl, inr, Option, none,
  some, List, [], ◌∷◌, ◌++◌, arith, ◌==◌, update_where, All, All-filter, subst, Result, ok, err,
  ◌>>=◌, Bool-cases, Option-cases,
}
use ecommerce_microservices.Products.Entities.{
  Product, Price, CreateProductDto, UpdateProductDto, Entry, Store, ProductError, product_not_found,
  Env,
}
use ecommerce_microservices.Products.Service.{
  by_id, read, without, put, load, find_by_id, load_price, find_price_by_id, new_product, create,
  assign, save_product, update,
}
use ecommerce_microservices.Products.Cache.{view, Shows, read-shown, shown-append, shown-replace}

abbrev pub itself : Product → Product
itself p = p

abbrev pub price_of : Product → Price
price_of p = record { price = p.price; currency = p.currency }

-- Both caches of single products.
abbrev pub IsCoherent : Store → Type 0
IsCoherent s =
    All (Shows itself s.products) s.cached × All (Shows price_of s.products) s.cached_prices

-- What the table alone says.
abbrev pub answer_of : {A : Type 0} → (Product → A) → String → List Product → Result ProductError A
answer_of f id products = elim (by_id id products) [
  | none ↦ err (product_not_found id)
  | some p ↦ ok (f p)
]

abbrev pub answer : String → Store → Result ProductError Product
answer id s = answer_of itself id s.products

abbrev pub price_answer : String → Store → Result ProductError Price
price_answer id s = answer_of price_of id s.products

shown-answer :
    {A : Type 0} (f : Product → A) (id : String) (products : List Product) (a : A)
    → view f (by_id id products) ≡ some a
    → ok a ≡ answer_of f id products
shown-answer f id products a shown = ground arith

load_cases :
    (env : Env) (id : String) (s : Store)
    → env.cache_written ≡ true
    → ((by_id id s.products ≡ none)
        × (load env id s ≡ (err (product_not_found id), s))
        × (load_price env id s ≡ (err (product_not_found id), s)))
      ⊎ ((p : Product) × (by_id id s.products ≡ some p)
          × (load env id s ≡ (ok p, record s { cached = put env id p s.cached }))
          × (load_price env id s ≡ (
            ok (price_of p),
            record s { cached_prices = put env id (price_of p) s.cached_prices },
          )))
unfolding load load_price
load_cases env id s written = elim (Option-cases (by_id id s.products)) [
  | inl missing ↦ inl (missing, ground arith, ground arith)
  | inr (p, found) ↦ inr (p, found, ground arith, ground arith)
]

put-shown :
    {A : Type 0} (f : Product → A) (env : Env) (id : String) (p : Product) (products : List Product)
    (entries : List (Entry A))
    → by_id id products ≡ some p
    → All (Shows f products) entries
    → All (Shows f products) (put env id (f p) entries)
put-shown f env id p products entries found h =
    (ap (view f) found, All-filter (Shows f products) (λ e. not (e.key == id)) entries h)

-- With a cache that answers and that is coherent, a product is found exactly as in the table, and
-- the cache stays coherent.
pub find_by_id-answer :
    (env : Env) (id : String) (s : Store)
    → env.cache_read ≡ true
    → env.cache_written ≡ true
    → IsCoherent s
    → ((find_by_id env id s).0 ≡ answer id s) × IsCoherent (find_by_id env id s).1
unfolding find_by_id
find_by_id-answer env id s reads written h = elim (Option-cases (read env.now id s.cached)) [
  | inr (p, hit) ↦
      let shown = read-shown itself env.now id s.cached s.products p h.0 hit in
      let r : find_by_id env id s ≡ (ok p, s) = ground arith in
      subst (λ r. (r.0 ≡ answer id s) × IsCoherent r.1) (sym r)
        (shown-answer itself id s.products p shown, h)
  | inl miss ↦ elim (load_cases env id s written) [
    | inl (missing, loaded, _) ↦
        let r : find_by_id env id s ≡ (err (product_not_found id), s) = ground arith in
        subst (λ r. (r.0 ≡ answer id s) × IsCoherent r.1) (sym r) (ground arith, h)
    | inr (p, found, loaded, _) ↦
        let r : find_by_id env id s ≡ (ok p, record s { cached = put env id p s.cached }) =
          ground arith in
        subst (λ r. (r.0 ≡ answer id s) × IsCoherent r.1) (sym r)
          (ground arith, (put-shown itself env id p s.products s.cached found h.0, h.1))
  ]
]

-- The same for the price of a product.
pub find_price_by_id-answer :
    (env : Env) (id : String) (s : Store)
    → env.cache_read ≡ true
    → env.cache_written ≡ true
    → IsCoherent s
    → ((find_price_by_id env id s).0 ≡ price_answer id s) × IsCoherent (find_price_by_id env id s).1
unfolding find_price_by_id
find_price_by_id-answer env id s reads written h =
    elim (Option-cases (read env.now id s.cached_prices)) [
      | inr (price, hit) ↦
          let shown = read-shown price_of env.now id s.cached_prices s.products price h.1 hit in
          let r : find_price_by_id env id s ≡ (ok price, s) = ground arith in
          subst (λ r. (r.0 ≡ price_answer id s) × IsCoherent r.1) (sym r)
            (shown-answer price_of id s.products price shown, h)
      | inl miss ↦ elim (load_cases env id s written) [
        | inl (missing, _, loaded) ↦
            let r : find_price_by_id env id s ≡ (err (product_not_found id), s) = ground arith in
            subst (λ r. (r.0 ≡ price_answer id s) × IsCoherent r.1) (sym r) (ground arith, h)
        | inr (p, found, _, loaded) ↦
            let r : find_price_by_id env id s ≡ (
              ok (price_of p),
              record s { cached_prices = put env id (price_of p) s.cached_prices },
            ) =
              ground arith in
            subst (λ r. (r.0 ≡ price_answer id s) × IsCoherent r.1) (sym r)
              (
                ground arith,
                (h.0, put-shown price_of env id p s.products s.cached_prices found h.1),
              )
      ]
    ]
