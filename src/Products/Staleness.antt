-- ===== src/Products/Staleness.antt =====
-- Updates of product-service/src/application/product.service.ts when the cache cannot be cleared.
use ecommerce_microservices.Common.{
  String, true, false, ◌≡◌, refl, sym, ap, ◌∙◌, none, some, arith, ◌==◌, get_or, eq_iff, find_sound,
  find-replace, update_where, subst, ok, err, ◌>>=◌,
}
use ecommerce_microservices.Products.Entities.{Product, UpdateProductDto, Store, cache_failed, Env}
use ecommerce_microservices.Products.Service.{by_id, read, find_by_id, assign, save_product, update}

abbrev with_row : Product → Store → Store
with_row product s = record s {
  products = update_where (λ p. p.id == product.id) (λ p. product) s.products;
}

found-cached :
    (env : Env) (id : String) (s : Store) (product : Product)
    → read env.now id s.cached ≡ some product
    → env.cache_read ≡ true
    → find_by_id env id s ≡ (ok product, s)
unfolding find_by_id
found-cached env id s product cached reads = ground arith

-- An update of a product that the cache holds.
update-cached :
    (env : Env) (id : String) (dto : UpdateProductDto) (s : Store) (product : Product)
    → read env.now id s.cached ≡ some product
    → env.cache_read ≡ true
    → update env id dto s ≡ save_product env (assign env dto product) s
unfolding update
update-cached env id dto s product cached reads =
    ap (λ r. ((λ u. r) >>= λ p. save_product env (assign env dto p)) s)
      (found-cached env id s product cached reads)

failed-save :
    (env : Env) (product : Product) (s : Store)
    → env.saved ≡ true
    → env.cache_deleted ≡ false
    → save_product env product s ≡ (err cache_failed, with_row product s)
unfolding save_product
failed-save env product s saved kept = ground arith

saved-products :
    (env : Env) (product : Product) (s : Store)
    → env.saved ≡ true
    → (save_product env product s).1.products ≡ (with_row product s).products
unfolding save_product
saved-products env product s saved = ground arith

with_row-found :
    (id : String) (new : Product) (s : Store) (old : Product)
    → new.id ≡ id
    → by_id id s.products ≡ some old
    → by_id id (with_row new s).products ≡ some new
with_row-found id new s old same found =
    subst (λ k. by_id k s.products ≡ some old → by_id k (with_row new s).products ≡ some new) same
      (λ f.
        find-replace (λ p. p.id == new.id) new s.products old
          (subst (λ k. (k == new.id) ≡ true)
            ((eq_iff old.id new.id).0 (find_sound (λ p. p.id == new.id) s.products old f))
            (find_sound (λ p. p.id == new.id) s.products old f))
          f)
      found

-- If an update of a cached product saves the row and cannot clear the cache, a later update that
-- gives no price, made while the entry lives, takes the price back.
pub stale_update_reverts :
    (env later : Env) (id : String) (dto dto' : UpdateProductDto) (s : Store) (product : Product)
    → by_id id s.products ≡ some product
    → read env.now id s.cached ≡ some product
    → read later.now id s.cached ≡ some product
    → env.cache_read ≡ true
    → later.cache_read ≡ true
    → env.saved ≡ true
    → later.saved ≡ true
    → env.cache_deleted ≡ false
    → dto'.price ≡ none
    → let s' = (update env id dto s).1 in
      ((p : Product) × (by_id id s'.products ≡ some p) × (p.price ≡ get_or dto.price product.price))
      × ((p : Product) × (by_id id (update later id dto' s').1.products ≡ some p)
          × (p.price ≡ product.price))
unfolding assign
stale_update_reverts env later id dto dto' s product found cached cached' reads reads' saved saved'
      kept unpriced =
    let own : product.id ≡ id =
      (eq_iff product.id id).0 (find_sound (λ p. p.id == id) s.products product found) in
    let t = with_row (assign env dto product) s in
    let first : update env id dto s ≡ (err cache_failed, t) =
      update-cached env id dto s product cached reads
      ∙ failed-save env (assign env dto product) s saved kept in
    let there = with_row-found id (assign env dto product) s product own found in
    let second =
      ap (λ r. r.1.products) (update-cached later id dto' t product cached' reads')
      ∙ saved-products later (assign later dto' product) t saved' in
    let last = with_row-found id (assign later dto' product) t (assign env dto product) own there in
    subst
      (λ s'.
        ((p : Product) × (by_id id s'.products ≡ some p)
          × (p.price ≡ get_or dto.price product.price))
        × ((p : Product) × (by_id id (update later id dto' s').1.products ≡ some p)
            × (p.price ≡ product.price)))
      (sym (ap (λ r. r.1) first))
      (
        (assign env dto product, there, refl),
        (
          assign later dto' product,
          ap (by_id id) second ∙ last,
          ap (λ o. get_or o product.price) unpriced,
        ),
      )
