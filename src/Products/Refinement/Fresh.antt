-- ===== src/Products/Refinement/Fresh.antt =====
-- What the caches of the product service show beside the table, and the look-ups
-- (product-service/src/application/product.service.ts) beside those of the table alone.
use ecommerce_microservices.Common.{
  ◌&&◌, ltb, ℕ, String, Bool, true, not, ◌≡◌, refl, sym, ap, ◌∙◌, inl, inr, some, List, [], arith,
  ◌==◌, eq_iff, find, find_sound, All, All-filter, All-find, subst, ok, Option-cases,
}
use ecommerce_microservices.Products.Entities.{
  Product, ListParams, PaginatedResult, Entry, Store, Env,
}
use ecommerce_microservices.Products.Service.{
  read, put, load, find_by_id, load_price, find_price_by_id,
}
use ecommerce_microservices.Products.Service.Lists
use ecommerce_microservices.Products.Service.Lists.{find_many, list_key, load_list}
use ecommerce_microservices.Products.Coherence.{
  IsCoherent, find_by_id-answer, find_price_by_id-answer,
}
use ecommerce_microservices.Products.Reference.{
  show, price, listing, Reply, product, priced, page, serve, reference,
}

-- The cache answers every command.
abbrev pub HasCache : Env → Type 0
HasCache env =
    (env.cache_read ≡ true)
    × (env.cache_written ≡ true)
    × (env.cache_deleted ≡ true)
    × (env.lists_deleted ≡ true)

pub keeps_rows :
    (env : Env) (id : String) (s : Store)
    → ((find_by_id env id s).1.products ≡ s.products)
      × ((find_by_id env id s).1.cached_lists ≡ s.cached_lists)
unfolding find_by_id load
keeps_rows env id s = (ground arith, ground arith)

keeps_rows_price :
    (env : Env) (id : String) (s : Store)
    → ((find_price_by_id env id s).1.products ≡ s.products)
      × ((find_price_by_id env id s).1.cached_lists ≡ s.cached_lists)
unfolding find_price_by_id load_price
keeps_rows_price env id s = (ground arith, ground arith)

module _ (ilike : String → String → Bool) (Plain : ListParams → Type 0) where
  -- A cached list is the one that the table gives now.
  abbrev pub IsListOf : List Product → Entry PaginatedResult → Type 0
  IsListOf products e =
      (p : ListParams) × Plain p × (e.key ≡ list_key p) × (e.value ≡ find_many ilike p products)

  abbrev pub IsFresh : Store → Type 0
  IsFresh s = IsCoherent s × All (IsListOf s.products) s.cached_lists

  -- What one step of the service keeps: the reply and the table of the reference, and fresh caches.
  abbrev pub Agrees : Reply × List Product → Reply × Store → Type 0
  Agrees (r, products) (r', s) = (r' ≡ r) × (s.products ≡ products) × IsFresh s

  pub lists_moved :
      (s t : Store)
      → t.products ≡ s.products
      → t.cached_lists ≡ s.cached_lists
      → All (IsListOf s.products) s.cached_lists
      → All (IsListOf t.products) t.cached_lists
  lists_moved s t rows same lists =
      subst (λ products. All (IsListOf products) t.cached_lists) (sym rows)
        (subst (All (IsListOf s.products)) (sym same) lists)

  pub show-Agrees :
      (env : Env) (id : String) (s : Store)
      → HasCache env
      → IsFresh s
      → Agrees (reference ilike env (show id) s.products) (serve ilike env (show id) s)
  show-Agrees env id s (reads, written, _, _) (coherent, lists) =
      let (right, kept) = find_by_id-answer env id s reads written coherent in
      let (rows, same) = keeps_rows env id s in
      (ap product right, rows, (kept, lists_moved s (find_by_id env id s).1 rows same lists))

  pub price-Agrees :
      (env : Env) (id : String) (s : Store)
      → HasCache env
      → IsFresh s
      → Agrees (reference ilike env (price id) s.products) (serve ilike env (price id) s)
  price-Agrees env id s (reads, written, _, _) (coherent, lists) =
      let (right, kept) = find_price_by_id-answer env id s reads written coherent in
      let (rows, same) = keeps_rows_price env id s in
      (ap priced right, rows, (kept, lists_moved s (find_price_by_id env id s).1 rows same lists))

  -- Where the lists are cleared, the single products decide.
  pub cleared : (t : Store) → IsCoherent t → t.cached_lists ≡ [] → IsFresh t
  cleared t coherent none_left = (coherent, subst (All (IsListOf t.products)) (sym none_left) tt)

  pub settle :
      (o o' : Reply × List Product) (r r' : Reply × Store)
      → o ≡ o'
      → r ≡ r'
      → Agrees o' r'
      → Agrees o r
  settle o o' r r' eo er h = subst (λ x. Agrees x r) (sym eo) (subst (Agrees o') (sym er) h)

module _ (ilike : String → String → Bool) (Plain : ListParams → Type 0)
    (apart : (p q : ListParams) → Plain p → Plain q → list_key p ≡ list_key q → p ≡ q) where
  read_list :
      (now : ℕ) (params : ListParams) (s : Store) (result : PaginatedResult)
      → Plain params
      → All (IsListOf ilike Plain s.products) s.cached_lists
      → read now (list_key params) s.cached_lists ≡ some result
      → result ≡ find_many ilike params s.products
  unfolding read
  read_list now params s result plain h e =
      let key = list_key params in
      elim (Option-cases (find (λ x. x.key == key && ltb now x.expires_at) s.cached_lists)) [
        | inl missing ↦ absurd (ground arith)
        | inr (entry, found) ↦
            let (p, plain', made, value) =
              All-find (IsListOf ilike Plain s.products) (λ x. x.key == key && ltb now x.expires_at)
                s.cached_lists entry h found in
            let hit =
              find_sound (λ x. x.key == key && ltb now x.expires_at) s.cached_lists entry found in
            let own : entry.key ≡ key = (eq_iff entry.key key).0 (ground arith) in
            let same : p ≡ params = apart p params plain' plain (sym made ∙ own) in
            let told : result ≡ entry.value = ground arith in
            told ∙ value ∙ ap (λ q. find_many ilike q s.products) same
      ]

  pub list-Agrees :
      (env : Env) (params : ListParams) (s : Store)
      → HasCache env
      → Plain params
      → IsFresh ilike Plain s
      → Agrees ilike Plain
          (reference ilike env (listing params) s.products)
          (serve ilike env (listing params) s)
  unfolding Lists.list load_list
  list-Agrees env params s (reads, written, _, _) plain (coherent, lists) =
      elim (Option-cases (read env.now (list_key params) s.cached_lists)) [
        | inr (result, hit) ↦
            let right = read_list env.now params s result plain lists hit in
            let r : serve ilike env (listing params) s ≡ (page (ok result), s) = ground arith in
            subst (Agrees ilike Plain (reference ilike env (listing params) s.products)) (sym r)
              (ap (λ q. page (ok q)) right, refl, (coherent, lists))
        | inl miss ↦
            let result = find_many ilike params s.products in
            let r : serve ilike env (listing params) s ≡ (
              page (ok result),
              record s { cached_lists = put env (list_key params) result s.cached_lists },
            ) =
              ground arith in
            subst (Agrees ilike Plain (reference ilike env (listing params) s.products)) (sym r) (
              refl,
              refl,
              (
                coherent,
                (
                  (params, plain, refl, refl),
                  All-filter (IsListOf ilike Plain s.products) (λ e. not (e.key == list_key params))
                      s.cached_lists lists,
                ),
              ),
            )
      ]
