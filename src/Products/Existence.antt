-- ===== src/Products/Existence.antt =====
-- `checkExistence` of product-service/src/application/product.service.ts.
use ecommerce_microservices.Common.{
  String, Bool, true, not, false≢true, ◌≡◌, ◌↔◌, refl, ap, ◌∙◌, inl, inr, List, [], ◌∷◌, map, arith,
  ◌==◌, eq_iff, eq_refl, is_some, includes, filter, All, All-map, Bool-cases,
}
use ecommerce_microservices.Products.Entities.{Product, Store}
use ecommerce_microservices.Products.Service.{by_id, every, check_existence}

-- Among the rows that are asked for, an identifier that is asked for is there if the table has it.
includes-existing :
    (ids : List String) (id : String) (products : List Product)
    → includes ids id ≡ true
    → includes (map (λ p. p.id) (filter (λ p. includes ids p.id) products)) id
      ≡ is_some (by_id id products)
includes-existing ids id [] asked = refl
includes-existing ids id (p ∷ products) asked =
    let rest = includes-existing ids id products asked in
    elim (Bool-cases (p.id == id)) [
      | inl hit ↦
          let same : p.id ≡ id = (eq_iff p.id id).0 hit in
          let there : includes ids p.id ≡ true = ap (includes ids) same ∙ asked in ground arith
      | inr miss ↦ elim (Bool-cases (includes ids p.id)) [
        | inl other ↦ ground arith
        | inr dropped ↦ ground arith
      ]
    ]

filter-same :
    (p q : String → Bool) (xs : List String) → All (λ x. p x ≡ q x) xs → filter p xs ≡ filter q xs
filter-same p q [] h = refl
filter-same p q (x ∷ xs) h = ground (arith, h.0, filter-same p q xs h.1)

includes_own : (xs : List String) → All (λ x. includes xs x ≡ true) xs
includes_own [] = tt
includes_own (x ∷ xs) =
    let own = eq_refl x in
    (
      ground arith,
      All-map (λ y. includes xs y ≡ true) (λ y. includes (x ∷ xs) y ≡ true) xs (λ y h. ground arith)
          (includes_own xs),
    )

every-missing :
    (test : String → Bool) (xs : List String)
    → (every test xs ≡ true) ↔ (filter (λ x. not (test x)) xs ≡ [])
unfolding every
every-missing test [] = ((λ h. refl), λ h. refl)
every-missing test (x ∷ xs) =
    let rest = every-missing test xs in
    elim (Bool-cases (test x)) [
      | inl hit ↦ rw (hit, every) rest
      | inr missed ↦ rw (missed, every) ((λ h. absurd (false≢true h)), λ h. absurd (ground arith))
    ]

-- Reported as missing are, of the identifiers that are asked for, those without a row; and the
-- products are said to exist exactly if none is missing.
pub check_existence-missing :
    (ids skus : List String) (s : Store)
    → ((check_existence ids skus s).missing
        ≡ filter (λ id. not (is_some (by_id id s.products))) ids)
      × (((check_existence ids skus s).exists ≡ true) ↔ ((check_existence ids skus s).missing ≡ []))
unfolding check_existence
check_existence-missing ids skus s =
    let existing = map (λ p. p.id) (filter (λ p. includes ids p.id) s.products) in
    (
      filter-same (λ id. not (includes existing id)) (λ id. not (is_some (by_id id s.products))) ids
          (All-map (λ x. includes ids x ≡ true)
            (λ x. not (includes existing x) ≡ not (is_some (by_id x s.products))) ids
            (λ x asked. ap not (includes-existing ids x s.products asked)) (includes_own ids)),
      every-missing (includes existing) ids,
    )
