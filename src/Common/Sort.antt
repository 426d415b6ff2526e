-- ===== src/Common/Sort.antt =====
-- `ORDER BY`, as a stable insertion sort.
use mathlib.Core.Bool.{Bool}
use mathlib.Core.List.{List, [], ◌∷◌, Perm}
use mathlib.Core.List.Perm
use native.Mathlib.Omega.{arith}
use ecommerce_microservices.Common.Tests.{if◌then◌else◌}
use Prim.Native.Nat.{suc}
use mathlib.Core.Path.{◌≡◌, refl, ap, ◌∙◌}
use mathlib.Core.Logic.{inl, inr}
use ecommerce_microservices.Common.Tests.{Bool-cases}
use ecommerce_microservices.Common.Tables.{All, Some, length, filter}

module _ {ℓ} {A : Type ℓ} (before : A → A → Bool) where
  -- Behind every row that goes before it.
  pub insert : A → List A → List A
  insert x [] = x ∷ []
  insert x (y ∷ ys) = let rest = insert x ys in if before x y then x ∷ y ∷ ys else y ∷ rest

  unfoldable pub order_by : List A → List A
  unfolding insert
  order_by [] = []
  order_by (x ∷ xs) = insert x (order_by xs)

  insert-perm : (x : A) (xs : List A) → Perm (insert x xs) (x ∷ xs)
  unfolding insert
  insert-perm x [] = Perm.refl _
  insert-perm x (y ∷ ys) = ground (
    arith,
    Perm.refl (x ∷ y ∷ ys),
    Perm.trans (Perm.cons y (insert-perm x ys)) (Perm.swap x y ys),
  )

  pub order_by-perm : (xs : List A) → Perm (order_by xs) xs
  unfolding order_by
  order_by-perm [] = Perm.refl []
  order_by-perm (x ∷ xs) = Perm.trans (insert-perm x (order_by xs)) (Perm.cons x (order_by-perm xs))

  insert-All {κ} : (P : A → Type κ) (x : A) (xs : List A) → P x → All P xs → All P (insert x xs)
  unfolding insert
  insert-All P x [] p h = (p, tt)
  insert-All P x (y ∷ ys) p h = ground (arith, insert-All P x ys p h.1)

  pub order_by-All {κ} : (P : A → Type κ) (xs : List A) → All P xs → All P (order_by xs)
  unfolding order_by
  order_by-All P [] h = tt
  order_by-All P (x ∷ xs) h = insert-All P x (order_by xs) h.0 (order_by-All P xs h.1)

  insert-Some : (P : A → Type 0) (x : A) (xs : List A) → Some P (x ∷ xs) → Some P (insert x xs)
  unfolding insert
  insert-Some P x [] h = h
  insert-Some P x (y ∷ ys) h = elim (Bool-cases (before x y)) [
    | inl first ↦ rw (first, insert) h
    | inr later ↦
        rw (later, insert)
          (elim h [
            | inl here ↦ inr (insert-Some P x ys (inl here))
            | inr (inl next) ↦ inl next
            | inr (inr rest) ↦ inr (insert-Some P x ys (inr rest))
          ])
  ]

  pub order_by-Some : (P : A → Type 0) (xs : List A) → Some P xs → Some P (order_by xs)
  unfolding order_by
  order_by-Some P [] h = h
  order_by-Some P (x ∷ xs) (inl here) = insert-Some P x (order_by xs) (inl here)
  order_by-Some P (x ∷ xs) (inr rest) =
      insert-Some P x (order_by xs) (inr (order_by-Some P xs rest))

  length-insert : (x : A) (xs : List A) → length (insert x xs) ≡ suc (length xs)
  unfolding insert
  length-insert x [] = refl
  length-insert x (y ∷ ys) = ground (arith, length-insert x ys)

  pub length-order_by : (xs : List A) → length (order_by xs) ≡ length xs
  unfolding order_by
  length-order_by [] = refl
  length-order_by (x ∷ xs) = length-insert x (order_by xs) ∙ ap suc (length-order_by xs)

  length-filter-insert :
      (q : A → Bool) (x : A) (xs : List A)
      → length (filter q (insert x xs)) ≡ length (filter q (x ∷ xs))
  unfolding insert
  length-filter-insert q x [] = refl
  length-filter-insert q x (y ∷ ys) = ground (arith, length-filter-insert q x ys)

  pub length-filter-order_by :
      (q : A → Bool) (xs : List A) → length (filter q (order_by xs)) ≡ length (filter q xs)
  unfolding order_by
  length-filter-order_by q [] = refl
  length-filter-order_by q (x ∷ xs) =
      let rest = length-filter-order_by q xs in
      length-filter-insert q x (order_by xs) ∙ ground arith
