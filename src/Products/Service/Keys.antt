-- ===== src/Products/Service/Keys.antt =====
-- The keys of cached lists (`buildListCacheKey` of
-- product-service/src/application/product.service.ts), where two lists share one.
use ecommerce_microservices.Common.{
  ℕ, ◌+◌, ◌<◌, String, Bool, true, false, ◌≡◌, refl, ap, ◌∙◌, none, some, List, [], ◌∷◌, arith,
  ◌==◌, eq_refl, filter, length, All, ok,
}
use ecommerce_microservices.Products.Entities.{Product, ListParams, PaginatedResult, Store, Env}
use ecommerce_microservices.Products.Service.{read, put}
use ecommerce_microservices.Products.Service.Lists.{list_key, is_listed, find_many, load_list, list}

abbrev pub in_star : ListParams → ListParams
in_star params = record params { category = some "*" }

star_key :
    (params : ListParams) → params.category ≡ none → list_key (in_star params) ≡ list_key params
unfolding list_key
star_key params all = rw (all, list_key) refl

load_list-kept :
    (ilike : String → String → Bool) (env : Env) (params : ListParams) (s : Store)
    → env.cache_read ≡ true
    → env.cache_written ≡ true
    → read env.now (list_key params) s.cached_lists ≡ none
    → (list ilike env params s).1 ≡ record s {
      cached_lists = put env (list_key params) (find_many ilike params s.products) s.cached_lists;
    }
unfolding list load_list
load_list-kept ilike env params s reads written miss = ground arith

list-hit :
    (ilike : String → String → Bool) (env : Env) (params : ListParams) (s : Store)
    (result : PaginatedResult)
    → env.cache_read ≡ true
    → read env.now (list_key params) s.cached_lists ≡ some result
    → (list ilike env params s).0 ≡ ok result
unfolding list
list-hit ilike env params s result reads hit = ground arith

read-put :
    (env : Env) (now : ℕ) (key : String) (result : PaginatedResult) (s : Store)
    → now < env.now + env.ttl
    → read now key (put env key result s.cached_lists) ≡ some result
unfolding read
read-put env now key result s alive = ground (arith, eq_refl key)

none-listed :
    (ilike : String → String → Bool) (params : ListParams) (products : List Product)
    → All (λ p. (p.category == "*") ≡ false) products
    → length (filter (is_listed ilike (in_star params)) products) ≡ 0
unfolding is_listed
none-listed ilike params [] h = refl
none-listed ilike params (p ∷ products) (other, h) =
    ground (arith, none-listed ilike params products h)

-- A list of the category `*`, in which no product is, has a total of zero by the table. Asked for
-- within the lifetime of a cached list with no category, it brings back that list of all
-- categories.
pub star_collides :
    (ilike : String → String → Bool) (env later : Env) (params : ListParams) (s : Store)
    → params.category ≡ none
    → All (λ p. (p.category == "*") ≡ false) s.products
    → env.cache_read ≡ true
    → env.cache_written ≡ true
    → later.cache_read ≡ true
    → read env.now (list_key params) s.cached_lists ≡ none
    → later.now < env.now + env.ttl
    → ((find_many ilike (in_star params) s.products).total ≡ 0)
      × ((list ilike later (in_star params) (list ilike env params s).1).0
          ≡ ok (find_many ilike params s.products))
unfolding find_many
star_collides ilike env later params s all apart reads written reads' miss alive =
    let result = find_many ilike params s.products in
    let key = list_key params in
    let kept = load_list-kept ilike env params s reads written miss in
    let there : read later.now (list_key (in_star params)) (list ilike env params s).1.cached_lists
        ≡ some result =
      ap (λ k. read later.now k (list ilike env params s).1.cached_lists) (star_key params all)
      ∙ ap (λ t. read later.now key t.cached_lists) kept
      ∙ read-put env later.now key result s alive in
    (
      none-listed ilike params s.products apart,
      list-hit ilike later (in_star params) (list ilike env params s).1 result reads' there,
    )
