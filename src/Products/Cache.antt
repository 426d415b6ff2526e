-- ===== src/Products/Cache.antt =====
-- The entries of a cache beside the rows that they were made from
-- (product-service/src/infrastructure/cache/redis-cache.service.ts).
use ecommerce_microservices.Common.{
  ℕ, String, true, false, not, ◌≡◌, refl, sym, ap, ◌∙◌, inl, inr, Option, none, some, List, [], ◌∷◌,
  ◌++◌, arith, ◌==◌, ◌&&◌, eq_iff, ltb, find, find_sound, find-append_some, find-update_other,
  update_where, All, All-map, All-zip, All-filter, All-filter_test, All-find, subst, Bool-cases,
  Option-cases,
}
use ecommerce_microservices.Products.Entities.{Product, Entry}
use ecommerce_microservices.Products.Service.{by_id, read, without}

abbrev pub view : {A : Type 0} → (Product → A) → Option Product → Option A
view f none = none
view f (some p) = some (f p)

-- An entry, whether it has expired or not, is what the row of its key gives.
abbrev pub Shows : {A : Type 0} → (Product → A) → List Product → Entry A → Type 0
Shows f products e = view f (by_id e.key products) ≡ some e.value

module _ {A : Type 0} (f : Product → A) where
  pub read-shown :
      (now : ℕ) (id : String) (entries : List (Entry A)) (products : List Product) (a : A)
      → All (Shows f products) entries
      → read now id entries ≡ some a
      → view f (by_id id products) ≡ some a
  unfolding read
  read-shown now id entries products a h e =
      elim (Option-cases (find (λ x. x.key == id && ltb now x.expires_at) entries)) [
        | inl missing ↦ absurd (ground arith)
        | inr (entry, found) ↦
            let shown =
              All-find (Shows f products) (λ x. x.key == id && ltb now x.expires_at) entries entry h
                found in
            let hit = find_sound (λ x. x.key == id && ltb now x.expires_at) entries entry found in
            let key : entry.key ≡ id = (eq_iff entry.key id).0 (ground arith) in
            let value : some entry.value ≡ some a = ground arith in
            subst (λ k. view f (by_id k products) ≡ some a) key (shown ∙ value)
      ]

  -- A new row leaves them right.
  pub shown-append :
      (entries : List (Entry A)) (products : List Product) (p : Product)
      → All (Shows f products) entries
      → All (Shows f (products ++ p ∷ [])) entries
  shown-append entries products p h =
      All-map (Shows f products) (Shows f (products ++ p ∷ [])) entries
        (λ e shown. still e (by_id e.key products) refl shown) h
    where
      still :
          (e : Entry A) (o : Option Product)
          → by_id e.key products ≡ o
          → view f (by_id e.key products) ≡ some e.value
          → view f (by_id e.key (products ++ p ∷ [])) ≡ some e.value
      still e none found shown = absurd (ground arith)
      still e (some q) found shown =
          ap (view f) (find-append_some (λ r. r.id == e.key) products (p ∷ []) q found)
          ∙ ap (view f) (sym found)
          ∙ shown

  apart : (a b : String) → not (b == a) ≡ true → (a == b) ≡ false
  apart a b h = elim (Bool-cases (a == b)) [
    | inr different ↦ different
    | inl same ↦
        let back : (b == a) ≡ true = (eq_iff b a).1 (sym ((eq_iff a b).0 same)) in
        absurd (ground arith)
  ]

  -- A row that is replaced leaves the entries of the others right.
  pub shown-replace :
      (entries : List (Entry A)) (products : List Product) (product : Product)
      → All (Shows f products) entries
      → All
          (Shows f (update_where (λ p. p.id == product.id) (λ p. product) products))
          (without product.id entries)
  shown-replace entries products product h =
      All-map (λ e. Shows f products e × (not (e.key == product.id) ≡ true))
        (Shows f (update_where (λ p. p.id == product.id) (λ p. product) products))
        (without product.id entries)
        (λ e (shown, other).
          ap (view f) (
            find-update_other (λ p. p.id == e.key) (λ p. p.id == product.id) product products
              (apart product.id e.key other)
              (λ p hit.
                subst (λ i. (i == e.key) ≡ false) (sym ((eq_iff p.id product.id).0 hit))
                  (apart product.id e.key other)))
          ∙ shown)
        (All-zip (Shows f products) (λ e. not (e.key == product.id) ≡ true)
          (without product.id entries)
          (All-filter (Shows f products) (λ e. not (e.key == product.id)) entries h)
          (All-filter_test (λ e. not (e.key == product.id)) entries))
