-- ===== src/Products/Service/Lists.antt =====
-- `list` of product-service/src/application/product.service.ts, with its key in the cache, and
-- `findMany` of product-service/src/infrastructure/persistence/product.repository.ts. The
-- database's ILIKE is a parameter. A price in a key is a number of cents.
use ecommerce_microservices.Common.{
  ℕ, ◌-◌, ◌*◌, String, Bool, true, not, Option, none, some, List, [], ◌∷◌, if◌then◌else◌, leb,
  get_or, truthy, ◌==◌, ◌&&◌, ◌||◌, filter, length, take, drop, ok, err, pure, gets, modify,
  throw_if, ◌>>=◌, ◌>>◌,
}
use ecommerce_microservices.Common.Sort.{order_by}
use ecommerce_microservices.Common.Text.{template, join, decimal}
use ecommerce_microservices.Products.Entities.{
  Product, ListParams, PaginatedResult, cache_failed, Env, Call,
}
use ecommerce_microservices.Products.Service.{read, put}

number_or_star : Option ℕ → String
number_or_star none = "*"
number_or_star (some n) = decimal n

unfoldable pub list_key : ListParams → String
unfolding number_or_star
list_key params = join ":" (
    "product"
    ∷ "list"
    ∷ decimal params.page
    ∷ decimal params.limit
    ∷ get_or params.category "*"
    ∷ get_or params.search "*"
    ∷ number_or_star params.min_price
    ∷ number_or_star params.max_price
    ∷ [])

module _ (ilike : String → String → Bool) where
  in_category : Option String → Product → Bool
  in_category category p = elim (truthy category) [ none ↦ true | some c ↦ p.category == c ]

  matches_search : Option String → Product → Bool
  matches_search search p = elim (truthy search) [
    | none ↦ true
    | some text ↦
        let pattern = template ("%" ∷ text ∷ "%" ∷ []) in
        ilike p.name pattern || ilike p.description pattern
  ]

  at_least : Option ℕ → Product → Bool
  at_least none p = true
  at_least (some n) p = leb n p.price

  at_most : Option ℕ → Product → Bool
  at_most none p = true
  at_most (some n) p = leb p.price n

  unfoldable pub is_listed : ListParams → Product → Bool
  unfolding in_category matches_search at_least at_most
  is_listed params p =
      in_category params.category p
      && matches_search params.search p
      && at_least params.min_price p
      && at_most params.max_price p

  abbrev newest_first : Product → Product → Bool
  newest_first a b = leb b.created_at a.created_at

  -- A page is at least 1.
  unfoldable pub find_many : ListParams → List Product → PaginatedResult
  unfolding is_listed
  find_many params products =
      let listed = filter (is_listed params) products in
      record {
        rows =
            take params.limit
              (drop ((params.page - 1) * params.limit) (order_by newest_first listed));
        total = length listed;
        page = params.page;
        limit = params.limit;
      }

  unfoldable pub load_list : Env → ListParams → Call PaginatedResult
  unfolding find_many
  load_list env params = do
    result ← gets (λ s. find_many params s.products)
    throw_if (not env.cache_written) cache_failed
    modify (λ s. record s { cached_lists = put env (list_key params) result s.cached_lists })
    pure result

  unfoldable pub list : Env → ListParams → Call PaginatedResult
  unfolding load_list read
  list env params s =
      if env.cache_read
      then elim (read env.now (list_key params) s.cached_lists) [
        | some result ↦ (ok result, s)
        | none ↦ load_list env params s
      ]
      else (err cache_failed, s)
