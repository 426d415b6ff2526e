-- ===== src/Products/Scenarios.antt =====
-- One product that is cached, and an update whose deletion from the cache fails: the runs at which
-- the theorems on the product service are applied.
use ecommerce_microservices.Common.{
  ℕ, String, Bool, true, false, ◌≡◌, ◌∙◌, refl, sym, List, ok, err, All, arith, Option, none, some,
  [], ◌∷◌,
}
use ecommerce_microservices.Products.Entities.{
  Product, CreateProductDto, UpdateProductDto, ListParams, Store, Env,
}
use ecommerce_microservices.Products.Service.{by_id, read, update}
use ecommerce_microservices.Products.Staleness.{stale_update_reverts}
use ecommerce_microservices.Products.Service.Lists
use ecommerce_microservices.Products.Service.Lists.{find_many, list_key}
use ecommerce_microservices.Products.Service.Keys.{in_star, star_collides}
use ecommerce_microservices.Products.Reference
use ecommerce_microservices.Products.Reference.{Request, serve_all, reference_all}
use ecommerce_microservices.Products.Refinement.{IsPlain, serve_all_refines}
use ecommerce_microservices.Products.Refinement.Fresh.{HasCache, IsFresh}
use ecommerce_microservices.Products.Routes.{InternalJwtPayload, post_product, put_product}
use ecommerce_microservices.Products.Routes.Laws.{refusal, only_admins_change}

abbrev at : ℕ → Bool → Env
at now deleted = record {
  now = now;
  product_id = "new";
  ttl = 300000;
  saved = true;
  cache_read = true;
  cache_written = true;
  cache_deleted = deleted;
  lists_deleted = true;
}

abbrev product : Product
product = record {
  id = "p";
  sku = "sku";
  name = "name";
  description = "";
  category = "";
  price = 300;
  currency = "USD";
  reservation_aware = true;
  is_active = true;
  image_url = none;
  created_at = 1;
  updated_at = 1;
}

abbrev store : Store
store = record {
  products = product ∷ [];
  cached = record { key = "p"; value = product; expires_at = 1000 } ∷ [];
  cached_prices = [];
  cached_lists = [];
}

abbrev changes : Option String → Option ℕ → UpdateProductDto
changes name price = record {
  name = name;
  description = none;
  category = none;
  price = price;
  currency = none;
  reservation_aware = none;
  is_active = none;
  image_url = none;
}

held : read 2 "p" store.cached ≡ some product
unfolding read
held = refl

held_later : read 3 "p" store.cached ≡ some product
unfolding read
held_later = refl

stale_update_reverts_example :
    let s' = (update (at 2 false) "p" (changes none (some 400)) store).1 in
    ((p : Product) × (by_id "p" s'.products ≡ some p) × (p.price ≡ 400))
    × ((p : Product) × (by_id "p"
            (update (at 3 true) "p" (changes (some "other") none) s').1.products
          ≡ some p)
        × (p.price ≡ 300))
stale_update_reverts_example =
    stale_update_reverts (at 2 false) (at 3 true) "p" (changes none (some 400))
      (changes (some "other") none) store product refl held held_later refl refl refl refl refl refl

abbrev everything : ListParams
everything = record {
  page = 1;
  limit = 20;
  category = none;
  search = none;
  min_price = none;
  max_price = none;
}

abbrev ilike : String → String → Bool
ilike text pattern = false

abbrev Plain : ListParams → Type 0
Plain params = params ≡ everything

apart : (p q : ListParams) → Plain p → Plain q → list_key p ≡ list_key q → p ≡ q
apart p q plain plain' same = plain ∙ sym plain'

abbrev requests : List (Env × Request)
requests =
    (at 2 true, Reference.listing everything)
    ∷ (at 3 true, Reference.change "p" (changes none (some 400)))
    ∷ (at 4 true, Reference.listing everything)
    ∷ (at 5 true, Reference.price "p")
    ∷ []

given : All (λ r. HasCache r.0 × IsPlain ilike Plain apart r.1) requests
given =
    let cache : HasCache (at 2 true) = (refl, refl, refl, refl) in
    ((cache, refl), ((cache, tt), ((cache, refl), ((cache, tt), tt))))

serve_all_refines_example :
    ((serve_all ilike requests store).0 ≡ (reference_all ilike requests (product ∷ [])).0)
    × ((serve_all ilike requests store).1.products
        ≡ (reference_all ilike requests (product ∷ [])).1)
    × IsFresh ilike Plain (serve_all ilike requests store).1
serve_all_refines_example =
    serve_all_refines ilike Plain apart requests store given (((refl, tt), tt), tt)

nothing_cached : read 2 (list_key everything) store.cached_lists ≡ none
unfolding read
nothing_cached = refl

star_collides_example :
    ((find_many ilike (in_star everything) store.products).total ≡ 0)
    × ((Lists.list ilike
          (at 3 true)
          (in_star everything)
          (Lists.list ilike (at 2 true) everything store).1).0
        ≡ ok (find_many ilike everything store.products))
star_collides_example =
    star_collides ilike (at 2 true) (at 3 true) everything store refl (refl, tt) refl refl refl
      nothing_cached (omega arith)

abbrev clerk : Option InternalJwtPayload
clerk = some (record { sub = "sue"; roles = some ("staff" ∷ []) })

abbrev new : CreateProductDto
new = record {
  sku = "other";
  name = "other";
  description = none;
  category = none;
  price = 100;
  currency = none;
  reservation_aware = none;
  is_active = none;
  image_url = none;
}

only_admins_change_example :
    (post_product (at 2 true) new clerk store ≡ (err (refusal clerk), store))
    × (put_product (λ id. true) (at 2 true) "p" (changes none (some 1)) clerk store
        ≡ (err (refusal clerk), store))
only_admins_change_example =
    only_admins_change (λ id. true) (at 2 true) "p" new (changes none (some 1)) clerk store refl
