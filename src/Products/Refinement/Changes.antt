-- ===== src/Products/Refinement/Changes.antt =====
-- The changes of the product service with its caches
-- (product-service/src/application/product.service.ts) beside those of the table alone.
use ecommerce_microservices.Common.{
  any, ◌||◌, String, Bool, true, not, ◌≡◌, refl, sym, ap, ◌∙◌, inl, inr, some, List, [], ◌∷◌, ◌++◌,
  arith, ◌==◌, update_where, subst, Result, ok, err, ◌>>=◌, Bool-cases, Option-cases,
}
use ecommerce_microservices.Products.Entities.{
  Product, CreateProductDto, UpdateProductDto, ListParams, Store, ProductError, product_not_found,
  query_failed, Env,
}
use ecommerce_microservices.Products.Service.{
  by_id, find_by_id, new_product, create, assign, save_product, update,
}
use ecommerce_microservices.Products.Coherence.{itself, answer_of, IsCoherent, find_by_id-answer}
use ecommerce_microservices.Products.Coherence.Changes.{
  replaced, create-IsCoherent, save_product-IsCoherent,
}
use ecommerce_microservices.Products.Reference.{
  add, change, Reply, product, serve, insert_row, change_row,
}
use ecommerce_microservices.Products.Refinement.Fresh.{
  HasCache, IsFresh, Agrees, lists_moved, cleared, settle, keeps_rows,
}

module _ (ilike : String → String → Bool) (Plain : ListParams → Type 0) where
  abbrev grown : Env → CreateProductDto → Store → Store
  grown env dto s = record s {
    products = s.products ++ new_product env dto ∷ [];
    cached_lists = [];
  }

  pub add-Agrees :
      (env : Env) (dto : CreateProductDto) (s : Store)
      → HasCache env
      → IsFresh ilike Plain s
      → Agrees ilike Plain (insert_row ilike env dto s.products) (serve ilike env (add dto) s)
  unfolding create
  add-Agrees env dto s (_, _, _, deleted) (coherent, lists) =
      let kept = create-IsCoherent env dto s coherent in
      elim (Bool-cases (not env.saved || any (λ p. p.sku == dto.sku) s.products)) [
        | inl refused ↦
            settle ilike Plain (insert_row ilike env dto s.products)
              (product (err query_failed), s.products) (serve ilike env (add dto) s)
              (product (err query_failed), s) (ground arith) (ground arith)
              (refl, refl, (coherent, lists))
        | inr stored ↦
            let created : create env dto s ≡ (ok (new_product env dto), grown env dto s) =
              ground arith in
            settle ilike Plain (insert_row ilike env dto s.products)
              (product (ok (new_product env dto)), s.products ++ new_product env dto ∷ [])
              (serve ilike env (add dto) s) (product (ok (new_product env dto)), grown env dto s)
              (ground arith) (ap (λ r. (product r.0, r.1)) created)
              (
                refl,
                refl,
                cleared ilike Plain (grown env dto s) (subst (λ r. IsCoherent r.1) created kept)
                    refl,
              )
      ]

  -- The end of an update, from what the look-up comes to.
  abbrev finish : Env → UpdateProductDto → Result ProductError Product × Store → Reply × Store
  finish env dto found =
      let (r, t) = ((λ u. found) >>= λ p. save_product env (assign env dto p)) found.1 in
      (product r, t)

  saved-Agrees :
      (env : Env) (p : Product) (t : Store)
      → HasCache env
      → IsCoherent t
      → env.saved ≡ true
      → Agrees ilike Plain
          (product (ok p), update_where (λ q. q.id == p.id) (λ q. p) t.products)
          (let (r, u) = save_product env p t in (product r, u))
  unfolding save_product
  saved-Agrees env p t (_, _, deleted, clear) coherent saved =
      let kept = save_product-IsCoherent env p t deleted coherent in
      let done : save_product env p t ≡ (ok p, record (replaced p t) { cached_lists = [] }) =
        ground arith in
      subst
        (λ r.
          Agrees ilike Plain (product (ok p), update_where (λ q. q.id == p.id) (λ q. p) t.products)
            (product r.0, r.1))
        (sym done)
        (
          refl,
          refl,
          cleared ilike Plain (record (replaced p t) { cached_lists = [] })
              (subst (λ r. IsCoherent r.1) done kept) refl,
        )

  abbrev row_changed : Env → UpdateProductDto → Product → List Product → Reply × List Product
  row_changed env dto p products = (
    product (ok (assign env dto p)),
    update_where (λ q. q.id == (assign env dto p).id) (λ q. assign env dto p) products,
  )

  change_row-found :
      (env : Env) (dto : UpdateProductDto) (id : String) (products : List Product) (p : Product)
      → by_id id products ≡ some p
      → env.saved ≡ true
      → change_row ilike env dto id products ≡ row_changed env dto p products
  change_row-found env dto id products p there saved = ground arith

  found-Agrees :
      (env : Env) (dto : UpdateProductDto) (id : String) (products : List Product)
      (found : Result ProductError Product × Store)
      → HasCache env
      → found.0 ≡ answer_of itself id products
      → found.1.products ≡ products
      → IsFresh ilike Plain found.1
      → Agrees ilike Plain (change_row ilike env dto id products) (finish env dto found)
  unfolding save_product
  found-Agrees env dto id products (err e, t) cache right rows fresh =
      elim (Option-cases (by_id id products)) [
        | inl missing ↦
            settle ilike Plain (change_row ilike env dto id products)
              (product (err (product_not_found id)), products) (product (err e), t)
              (product (err (product_not_found id)), t) (ground arith) (ground arith)
              (refl, rows, fresh)
        | inr (p, there) ↦ absurd (ground arith)
      ]
  found-Agrees env dto id products (ok q, t) cache right rows fresh =
      elim (Option-cases (by_id id products)) [
        | inl missing ↦ absurd (ground arith)
        | inr (p, there) ↦
            let same : p ≡ q = ground arith in
            elim (Bool-cases env.saved) [
              | inl saved ↦
                  let changed = assign env dto q in
                  settle ilike Plain (change_row ilike env dto id products)
                    (
                      product (ok changed),
                      update_where (λ r. r.id == changed.id) (λ r. changed) t.products,
                    )
                    (finish env dto (ok q, t)) (finish env dto (ok q, t))
                    (change_row-found env dto id products p there saved
                      ∙ ap (λ r. row_changed env dto r products) same
                      ∙ ap (row_changed env dto q) (sym rows))
                    refl (saved-Agrees env changed t cache fresh.0 saved)
              | inr refused ↦
                  settle ilike Plain (change_row ilike env dto id products)
                    (product (err query_failed), products) (finish env dto (ok q, t))
                    (product (err query_failed), t) (ground arith) (ground arith)
                    (refl, rows, fresh)
            ]
      ]

  pub change-Agrees :
      (env : Env) (dto : UpdateProductDto) (id : String) (s : Store)
      → HasCache env
      → IsFresh ilike Plain s
      → Agrees ilike Plain
          (change_row ilike env dto id s.products)
          (serve ilike env (change id dto) s)
  unfolding update
  change-Agrees env dto id s cache (coherent, lists) =
      let (right, kept) = find_by_id-answer env id s cache.0 cache.1 coherent in
      let (rows, same) = keeps_rows env id s in
      found-Agrees env dto id s.products (find_by_id env id s) cache right rows
        (kept, (lists_moved ilike Plain) s (find_by_id env id s).1 rows same lists)
