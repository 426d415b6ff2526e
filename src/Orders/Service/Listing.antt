-- ===== src/Orders/Service/Listing.antt =====
-- `listOrders` of order-service/src/modules/order/order.service.ts, on every branch.
use ecommerce_microservices.Common.{
  eqb, ℕ, suc, zero, ◌+◌, ◌-◌, ◌*◌, ◌≤◌, true, false, ◌≡◌, refl, sym, ap, ◌∙◌, inl, inr, List, [],
  ◌∷◌, ◌++◌, arith, subst, ltb, take, drop, length, filter, take_all, Perm, All, Result, ok, err,
  Bool-cases,
}
use ecommerce_microservices.Common.Sort.{order_by-perm}
use ecommerce_microservices.Orders.Entities.{Order, JwtPayload, Store, OrderError}
use ecommerce_microservices.Orders.Repository.{FindOptions, matches, matching, find_all}
use ecommerce_microservices.Orders.Service.{OrderPage}

-- An order of the caller's own.
abbrev pub IsOwn : JwtPayload → Order → Type 0
IsOwn user o = o.customer_user_id ≡ user.sub

abbrev pub IsOwnPage : JwtPayload → Result OrderError OrderPage → Type 0
IsOwnPage user (ok page) =
    All (IsOwn user) page.orders
    × (1 ≤ page.limit → length page.orders ≤ page.limit)
    × (page.limit ≡ 0 → length page.orders ≡ page.total)
IsOwnPage user (err _) = Unit

take-nil : {A : Type 0} (n : ℕ) → take {A = A} n [] ≡ []
take-nil zero = refl
take-nil (suc n) = refl

take-drop : {A : Type 0} (m n : ℕ) (xs : List A) → take m xs ++ take n (drop m xs) ≡ take (m + n) xs
take-drop zero n xs = ap (λ k. take k xs) (omega arith)
take-drop (suc m) n [] = take-nil n ∙ sym (take-nil (suc m + n))
take-drop (suc m) n (x ∷ xs) =
    let sum : suc (m + n) ≡ suc m + n = omega arith in
    ap (λ l. x ∷ l) (take-drop m n xs) ∙ ap (λ k. take k (x ∷ xs)) sum

-- The orders of the page of number `n`.
abbrev pub page_of : FindOptions → Store → ℕ → List Order
page_of options s n = elim (find_all (record options { page = n }) s) [
  | ok (orders, total) ↦ orders
  | err e ↦ []
]

-- The orders of the pages from 1 to `k`.
abbrev pub first_pages : FindOptions → Store → ℕ → List Order
first_pages options s zero = []
first_pages options s (suc k) = first_pages options s k ++ page_of options s (suc k)

page_of-take :
    (options : FindOptions) (s : Store) (k : ℕ)
    → eqb options.limit 0 ≡ false
    → page_of options s (suc k) ≡ take options.limit (drop (k * options.limit) (matching options s))
unfolding find_all matching matches
page_of-take options s k limited =
    let there : ltb (suc k) 1 ≡ false = ground arith in
    let same : suc k - 1 ≡ k = omega arith in rw (limited, there, page_of, same) refl

first_pages-take :
    (options : FindOptions) (s : Store) (k : ℕ)
    → eqb options.limit 0 ≡ false
    → first_pages options s k ≡ take (k * options.limit) (matching options s)
first_pages-take options s zero limited =
    let none_yet : 0 ≡ 0 * options.limit = omega arith in
    ap (λ n. take n (matching options s)) none_yet
first_pages-take options s (suc k) limited =
    let more : k * options.limit + options.limit ≡ suc k * options.limit = omega arith in
    ap (λ l. l ++ page_of options s (suc k)) (first_pages-take options s k limited)
    ∙ ap (λ l. take (k * options.limit) (matching options s) ++ l)
        (page_of-take options s k limited)
    ∙ take-drop (k * options.limit) options.limit (matching options s)
    ∙ ap (λ n. take n (matching options s)) more

-- Without a limit, each page is all orders that match.
first_pages-none :
    (options : FindOptions) (s : Store) (k : ℕ)
    → eqb options.limit 0 ≡ true
    → matching options s ≡ []
    → first_pages options s k ≡ []
unfolding find_all matching matches
first_pages-none options s zero unlimited nothing = refl
first_pages-none options s (suc k) unlimited nothing =
    ap (λ l. l ++ page_of options s (suc k)) (first_pages-none options s k unlimited nothing)
    ∙ rw (unlimited, page_of) nothing

no_rows : {A : Type 0} → (xs : List A) → length xs ≤ 0 → xs ≡ []
no_rows [] h = refl
no_rows (x ∷ xs) h = absurd (omega arith)

-- Together, enough pages show all orders that match, each once.
pub pages_cover :
    (options : FindOptions) (s : Store) (k : ℕ)
    → length (matching options s) ≤ k * options.limit
    → Perm (first_pages options s k) (filter (matches options) s.orders)
unfolding matching
pages_cover options s k enough = elim (Bool-cases (eqb options.limit 0)) [
  | inl unlimited ↦
      let no_limit : options.limit ≡ 0 = ground arith in
      let zero_all : k * options.limit ≡ 0 = ap (λ l. k * l) no_limit ∙ omega arith in
      let nothing = no_rows (matching options s) (omega (arith, enough, zero_all)) in
      subst (λ l. Perm l (filter (matches options) s.orders))
        (nothing ∙ sym (first_pages-none options s k unlimited nothing))
        (order_by-perm _ (filter (matches options) s.orders))
  | inr limited ↦
      subst (λ l. Perm l (filter (matches options) s.orders))
        (sym (
          first_pages-take options s k limited
          ∙ take_all (k * options.limit) (matching options s) enough))
        (order_by-perm _ (filter (matches options) s.orders))
]
