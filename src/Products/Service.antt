-- ===== src/Products/Service.antt =====
-- product-service/src/application/product.service.ts, with the queries of
-- product-service/src/infrastructure/persistence/product.repository.ts and the cache of
-- product-service/src/infrastructure/cache/redis-cache.service.ts.
pub mod Lists
pub mod Keys
use ecommerce_microservices.Common.{
  ℕ, ◌+◌, String, Bool, true, not, Option, none, some, List, [], ◌∷◌, ◌++◌, map, if◌then◌else◌, ltb,
  get_or, or_else, ◌==◌, ◌&&◌, ◌||◌, any, find, filter, update_where, includes, ok, err, pure, gets,
  modify, throw_if, or_throw, ◌>>=◌, ◌>>◌,
}
use ecommerce_microservices.Products.Entities.{
  Product, CreateProductDto, UpdateProductDto, Entry, Price, Store, product_not_found, query_failed,
  cache_failed, Env, Call,
}

abbrev pub by_id : String → List Product → Option Product
by_id id products = find (λ p. p.id == id) products

-- `cache.get`: an entry that has not expired.
unfoldable pub read : {A : Type 0} → ℕ → String → List (Entry A) → Option A
read now key entries = elim (find (λ e. e.key == key && ltb now e.expires_at) entries) [
  | none ↦ none
  | some e ↦ some e.value
]

abbrev pub without : {A : Type 0} → String → List (Entry A) → List (Entry A)
without key entries = filter (λ e. not (e.key == key)) entries

-- `cache.set`
abbrev pub put : {A : Type 0} → Env → String → A → List (Entry A) → List (Entry A)
put env key value entries =
    record { key = key; value = value; expires_at = env.now + env.ttl } ∷ without key entries

-- A product that is not in the cache is read from the table and put there.
unfoldable pub load : Env → String → Call Product
load env id = do
  found ← gets (λ s. by_id id s.products)
  product ← or_throw found (product_not_found id)
  throw_if (not env.cache_written) cache_failed
  modify (λ s. record s { cached = put env id product s.cached })
  pure product

unfoldable pub find_by_id : Env → String → Call Product
unfolding load read
find_by_id env id s =
    if env.cache_read
    then elim (read env.now id s.cached) [ some product ↦ (ok product, s) | none ↦ load env id s ]
    else (err cache_failed, s)

unfoldable pub load_price : Env → String → Call Price
load_price env id = do
  found ← gets (λ s. by_id id s.products)
  product ← or_throw found (product_not_found id)
  let result : Price = record { price = product.price; currency = product.currency }
  throw_if (not env.cache_written) cache_failed
  modify (λ s. record s { cached_prices = put env id result s.cached_prices })
  pure result

unfoldable pub find_price_by_id : Env → String → Call Price
unfolding load_price read
find_price_by_id env id s =
    if env.cache_read
    then elim (read env.now id s.cached_prices) [
      | some price ↦ (ok price, s)
      | none ↦ load_price env id s
    ]
    else (err cache_failed, s)

unfoldable pub new_product : Env → CreateProductDto → Product
new_product env dto = record {
  id = env.product_id;
  sku = dto.sku;
  name = dto.name;
  description = get_or dto.description "";
  category = get_or dto.category "";
  price = dto.price;
  currency = get_or dto.currency "USD";
  reservation_aware = get_or dto.reservation_aware true;
  is_active = get_or dto.is_active true;
  image_url = dto.image_url;
  created_at = env.now;
  updated_at = env.now;
}

-- The column `sku` is unique. The deletion of the cached lists, which are all of one prefix, may fail
-- after the row is saved.
unfoldable pub create : Env → CreateProductDto → Call Product
create env dto = do
  taken ← gets (λ s. any (λ p. p.sku == dto.sku) s.products)
  throw_if (not env.saved || taken) query_failed
  modify (λ s. record s { products = s.products ++ new_product env dto ∷ [] })
  throw_if (not env.lists_deleted) cache_failed
  modify (λ s. record s { cached_lists = [] })
  pure (new_product env dto)

-- The fields that the request gives.
unfoldable pub assign : Env → UpdateProductDto → Product → Product
assign env dto p = record p {
  name = get_or dto.name p.name;
  description = get_or dto.description p.description;
  category = get_or dto.category p.category;
  price = get_or dto.price p.price;
  currency = get_or dto.currency p.currency;
  reservation_aware = get_or dto.reservation_aware p.reservation_aware;
  is_active = get_or dto.is_active p.is_active;
  image_url = or_else dto.image_url p.image_url;
  updated_at = env.now;
}

-- The row is saved as it was read, from the cache or from the table, with the request's fields.
unfoldable pub save_product : Env → Product → Call Product
save_product env product = do
  throw_if (not env.saved) query_failed
  modify (λ s. record s {
    products = update_where (λ p. p.id == product.id) (λ p. product) s.products;
  })
  throw_if (not env.cache_deleted) cache_failed
  modify (λ s. record s {
    cached = without product.id s.cached;
    cached_prices = without product.id s.cached_prices;
  })
  throw_if (not env.lists_deleted) cache_failed
  modify (λ s. record s { cached_lists = [] })
  pure product

unfoldable pub update : Env → String → UpdateProductDto → Call Product
unfolding find_by_id
update env id dto = find_by_id env id >>= λ product. save_product env (assign env dto product)

pub record Existence : Type 0 where
  pub existing_ids : List String
  pub existing_skus : List String
  pub missing : List String
  pub exists : Bool

-- `array.every(test)`
unfoldable pub every : (String → Bool) → List String → Bool
every test [] = true
every test (x ∷ xs) = test x && every test xs

unfoldable pub check_existence : List String → List String → Store → Existence
unfolding every
check_existence ids skus s =
    let existing_ids = map (λ p. p.id) (filter (λ p. includes ids p.id) s.products) in
    record {
      existing_ids = existing_ids;
      existing_skus = map (λ p. p.sku) (filter (λ p. includes skus p.sku) s.products);
      missing = filter (λ id. not (includes existing_ids id)) ids;
      exists = every (includes existing_ids) ids;
    }
