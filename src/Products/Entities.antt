-- ===== src/Products/Entities.antt =====
-- The rows of the product service's database (product-service/src/domain), its requests
-- (product-service/src/interface/http/dto), and its cache in Redis
-- (product-service/src/infrastructure/cache/redis-cache.service.ts). Prices are whole cents.
use ecommerce_microservices.Common.{ℕ, String, Bool, Option, List, Exec}

pub record Product : Type 0 where
  pub id : String
  pub sku : String
  pub name : String
  pub description : String
  pub category : String
  pub price : ℕ
  pub currency : String
  pub reservation_aware : Bool
  pub is_active : Bool
  pub image_url : Option String
  pub created_at : ℕ
  pub updated_at : ℕ

pub record CreateProductDto : Type 0 where
  pub sku : String
  pub name : String
  pub description : Option String
  pub category : Option String
  pub price : ℕ
  pub currency : Option String
  pub reservation_aware : Option Bool
  pub is_active : Option Bool
  pub image_url : Option String

pub record UpdateProductDto : Type 0 where
  pub name : Option String
  pub description : Option String
  pub category : Option String
  pub price : Option ℕ
  pub currency : Option String
  pub reservation_aware : Option Bool
  pub is_active : Option Bool
  pub image_url : Option String

-- An entry of the cache: the identifier in its key, the value, and the time at which it expires.
pub record Entry (A : Type 0) : Type 0 where
  pub key : String
  pub value : A
  pub expires_at : ℕ

pub record Price : Type 0 where
  pub price : ℕ
  pub currency : String

-- What a list of products is asked by, and one page of it.
pub record ListParams : Type 0 where
  pub page : ℕ
  pub limit : ℕ
  pub category : Option String
  pub search : Option String
  pub min_price : Option ℕ
  pub max_price : Option ℕ

pub record PaginatedResult : Type 0 where
  pub rows : List Product
  pub total : ℕ
  pub page : ℕ
  pub limit : ℕ

-- The table, and the entries under `product:…`, under `product:price:…` and under `product:list:…`,
-- the last with their whole keys.
pub record Store : Type 0 where
  pub products : List Product
  pub cached : List (Entry Product)
  pub cached_prices : List (Entry Price)
  pub cached_lists : List (Entry PaginatedResult)

pub data ProductError : Type 0 where
  product_not_found : String → ProductError
  query_failed : ProductError
  cache_failed : ProductError

-- The surroundings of one call: the clock, a new identifier, how long an entry lives, whether a
-- write to the database goes through, and whether the cache answers. Reads of the database succeed.
pub record Env : Type 0 where
  pub now : ℕ
  pub product_id : String
  pub ttl : ℕ
  pub saved : Bool
  pub cache_read : Bool
  pub cache_written : Bool
  pub cache_deleted : Bool
  pub lists_deleted : Bool

abbrev pub Call : Type 0 → Type 0
Call A = Exec Store ProductError A
