-- ===== src/Products/Refinement.antt =====
-- The service with its caches (product-service/src/application/product.service.ts) beside the
-- service without.
pub mod Fresh
pub mod Changes
use ecommerce_microservices.Common.{
  any, ◌||◌, ◌&&◌, ltb, ℕ, String, Bool, true, not, ◌≡◌, refl, sym, ap, ◌∙◌, inl, inr, some, List,
  [], ◌∷◌, ◌++◌, arith, ◌==◌, eq_iff, update_where, find, find_sound, All, All-filter, All-find,
  subst, Result, ok, err, ◌>>=◌, Bool-cases, Option-cases,
}
use ecommerce_microservices.Products.Entities.{
  Product, CreateProductDto, UpdateProductDto, ListParams, PaginatedResult, Entry, Store,
  ProductError, product_not_found, query_failed, Env,
}
use ecommerce_microservices.Products.Service.{
  by_id, read, put, load, find_by_id, load_price, find_price_by_id, new_product, create, assign,
  save_product, update,
}
use ecommerce_microservices.Products.Service.Lists
use ecommerce_microservices.Products.Service.Lists.{find_many, list_key, load_list}
use ecommerce_microservices.Products.Coherence.{
  itself, answer_of, IsCoherent, find_by_id-answer, find_price_by_id-answer,
}
use ecommerce_microservices.Products.Coherence.Changes.{
  replaced, create-IsCoherent, save_product-IsCoherent,
}
use ecommerce_microservices.Products.Reference.{
  Request, show, price, listing, add, change, Reply, product, priced, page, serve, insert_row,
  change_row, reference, serve_all, reference_all,
}
use ecommerce_microservices.Products.Refinement.Fresh.{
  HasCache, IsFresh, Agrees, show-Agrees, price-Agrees, list-Agrees,
}
use ecommerce_microservices.Products.Refinement.Changes.{add-Agrees, change-Agrees}

module _ (ilike : String → String → Bool) (Plain : ListParams → Type 0)
    (apart : (p q : ListParams) → Plain p → Plain q → list_key p ≡ list_key q → p ≡ q) where
  abbrev pub IsPlain : Request → Type 0
  IsPlain (listing params) = Plain params
  IsPlain _ = Unit

  serve-Agrees :
      (env : Env) (req : Request) (s : Store)
      → HasCache env
      → IsPlain req
      → IsFresh ilike Plain s
      → Agrees ilike Plain (reference ilike env req s.products) (serve ilike env req s)
  serve-Agrees env (show id) s cache plain fresh = show-Agrees ilike Plain env id s cache fresh
  serve-Agrees env (price id) s cache plain fresh = price-Agrees ilike Plain env id s cache fresh
  serve-Agrees env (listing params) s cache plain fresh =
      list-Agrees ilike Plain apart env params s cache plain fresh
  serve-Agrees env (add dto) s cache plain fresh = add-Agrees ilike Plain env dto s cache fresh
  serve-Agrees env (change id dto) s cache plain fresh =
      change-Agrees ilike Plain env dto id s cache fresh

  -- For any sequence of requests, the service with its caches gives the replies that the table alone
  -- gives, and leaves the same table, whichever writes to the database fail. Reads of the database
  -- succeed, the caches answer
  -- every command, they start fresh, and no two lists that are asked for share a key.
  pub serve_all_refines :
      (requests : List (Env × Request)) (s : Store)
      → All (λ r. HasCache r.0 × IsPlain r.1) requests
      → IsFresh ilike Plain s
      → ((serve_all ilike requests s).0 ≡ (reference_all ilike requests s.products).0)
        × ((serve_all ilike requests s).1.products ≡ (reference_all ilike requests s.products).1)
        × (IsFresh ilike Plain) (serve_all ilike requests s).1
  serve_all_refines [] s given fresh = (refl, refl, fresh)
  serve_all_refines ((env, req) ∷ requests) s ((cache, plain), given) fresh =
      let (told, rows, kept) = serve-Agrees env req s cache plain fresh in
      let (rest, last, still) = serve_all_refines requests (serve ilike env req s).1 given kept in
      let t = (serve ilike env req s).1 in
      (
        ap (λ r. r ∷ (serve_all ilike requests t).0) told
            ∙ ap (λ rs. (reference ilike env req s.products).0 ∷ rs)
                (rest ∙ ap (λ ps. (reference_all ilike requests ps).0) rows),
        last ∙ ap (λ ps. (reference_all ilike requests ps).1) rows,
        still,
      )
