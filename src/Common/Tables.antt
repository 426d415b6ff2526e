-- ===== src/Common/Tables.antt =====
-- A table is the list of its rows, the oldest first. These are the queries that the services make.
use Prim.Native.Nat.{ℕ, zero, suc, ◌+◌, ◌≤◌}
use Prim.Native.String.{String}
use mathlib.Core.Path.{◌≡◌, refl, ap}
use mathlib.Core.Logic.{◌⊎◌, inl, inr}
use mathlib.Core.Bool.{Bool, true, false, ◌||◌}
use mathlib.Core.Option
use mathlib.Core.Option.{Option, none, some}
use mathlib.Core.List.{List, [], ◌∷◌, ◌++◌}
use native.Mathlib.Omega.{arith}
use text.Mathlib.Text.{◌==◌}
use ecommerce_microservices.Common.Tests.{if◌then◌else◌, Bool-cases}

module _ {ℓ} {A : Type ℓ} where
  abbrev pub length : List A → ℕ
  length [] = 0
  length (x ∷ xs) = suc (length xs)

  abbrev pub take : ℕ → List A → List A
  take zero xs = []
  take (suc n) [] = []
  take (suc n) (x ∷ xs) = x ∷ take n xs

  abbrev pub drop : ℕ → List A → List A
  drop zero xs = xs
  drop (suc n) [] = []
  drop (suc n) (x ∷ xs) = drop n xs

  -- The first row that passes the test: `findOne`.
  abbrev pub find : (A → Bool) → List A → Option A
  find p [] = none
  find p (x ∷ xs) = if p x then some x else find p xs

  abbrev pub filter : (A → Bool) → List A → List A
  filter p [] = []
  filter p (x ∷ xs) = let rest = filter p xs in if p x then x ∷ rest else rest

  abbrev pub any : (A → Bool) → List A → Bool
  any p [] = false
  any p (x ∷ xs) = p x || any p xs

  -- `UPDATE … SET … WHERE p`
  abbrev pub update_where : (A → Bool) → (A → A) → List A → List A
  update_where p f [] = []
  update_where p f (x ∷ xs) = (if p x then f x else x) ∷ update_where p f xs

  abbrev pub All {κ} : (A → Type κ) → List A → Type κ
  All P [] = Unit
  All P (x ∷ xs) = P x × All P xs

abbrev pub includes : List String → String → Bool
includes xs s = any (λ x. x == s) xs

module _ {ℓ} {A : Type ℓ} where
  pub find_sound : (p : A → Bool) (xs : List A) (x : A) → find p xs ≡ some x → p x ≡ true
  find_sound p [] x h = ground arith
  find_sound p (y ∷ ys) x h = ground (arith, find_sound p ys x)

  pub find-append_some :
      (p : A → Bool) (xs ys : List A) (x : A) → find p xs ≡ some x → find p (xs ++ ys) ≡ some x
  find-append_some p [] ys x h = ground arith
  find-append_some p (y ∷ xs) ys x h = ground (arith, find-append_some p xs ys x)

  pub find-append_none :
      (p : A → Bool) (xs ys : List A) → find p xs ≡ none → find p (xs ++ ys) ≡ find p ys
  find-append_none p [] ys h = refl
  find-append_none p (y ∷ xs) ys h = ground (arith, find-append_none p xs ys)

  -- An update that leaves the test alone updates what is found.
  pub find-update_where :
      (q p : A → Bool) (f : A → A) (xs : List A)
      → ((x : A) → q (f x) ≡ q x)
      → find q (update_where p f xs) ≡ Option.map (λ x. if p x then f x else x) (find q xs)
  find-update_where q p f [] h = refl
  find-update_where q p f (x ∷ xs) h = ground (arith, h x, find-update_where q p f xs h)

  -- A row that is found is replaced by one that passes the test too.
  pub find-replace :
      (q : A → Bool) (y : A) (xs : List A) (x : A)
      → q y ≡ true
      → find q xs ≡ some x
      → find q (update_where q (λ r. y) xs) ≡ some y
  find-replace q y [] x hit h = absurd (ground arith)
  find-replace q y (z ∷ xs) x hit h = ground (arith, find-replace q y xs x hit)

  pub length-append : (xs ys : List A) → length (xs ++ ys) ≡ length xs + length ys
  length-append [] ys = omega arith
  length-append (x ∷ xs) ys = omega (arith, length-append xs ys)

  pub length-take-le : (n : ℕ) (xs : List A) → length (take n xs) ≤ n
  length-take-le zero xs = omega arith
  length-take-le (suc n) [] = omega arith
  length-take-le (suc n) (x ∷ xs) = omega (arith, length-take-le n xs)

  pub length-update_where :
      (p : A → Bool) (f : A → A) (xs : List A) → length (update_where p f xs) ≡ length xs
  length-update_where p f [] = refl
  length-update_where p f (x ∷ xs) = ap suc (length-update_where p f xs)

  module _ {κ} (P : A → Type κ) where
    pub All-append : (xs ys : List A) → All P xs → All P ys → All P (xs ++ ys)
    All-append [] ys h k = k
    All-append (x ∷ xs) ys h k = (h.0, All-append xs ys h.1 k)

    pub All-filter : (p : A → Bool) (xs : List A) → All P xs → All P (filter p xs)
    All-filter p [] h = tt
    All-filter p (x ∷ xs) h = ground (arith, All-filter p xs h.1)

    pub All-find : (p : A → Bool) (xs : List A) (x : A) → All P xs → find p xs ≡ some x → P x
    All-find p [] x h e = ground arith
    All-find p (y ∷ xs) x h e = ground (arith, All-find p xs x h.1)

    pub All-take : (n : ℕ) (xs : List A) → All P xs → All P (take n xs)
    All-take zero xs h = tt
    All-take (suc n) [] h = tt
    All-take (suc n) (x ∷ xs) h = (h.0, All-take n xs h.1)

  -- A row that one query finds and that passes another test is found, or some row is, by that test.
  pub find_hit :
      (p q : A → Bool) (xs : List A) (x : A)
      → find p xs ≡ some x
      → q x ≡ true
      → (y : A) × (find q xs ≡ some y)
  find_hit p q [] x h k = absurd (ground arith)
  find_hit p q (y ∷ ys) x h k = elim (Bool-cases (q y)) [
    | inl hit ↦ (y, rw hit)
    | inr missed ↦ let (z, found) = find_hit p q ys x (ground arith) k in (z, rw missed found)
  ]

  pub find_last :
      (q : A → Bool) (xs : List A) (x : A) → q x ≡ true → (y : A) × (find q (xs ++ x ∷ []) ≡ some y)
  find_last q [] x k = (x, rw k)
  find_last q (y ∷ ys) x k = elim (Bool-cases (q y)) [
    | inl hit ↦ (y, rw hit)
    | inr missed ↦ let (z, found) = find_last q ys x k in (z, rw missed found)
  ]

  pub any-none : (p : A → Bool) (xs : List A) → find p xs ≡ none → any p xs ≡ false
  any-none p [] h = refl
  any-none p (x ∷ xs) h = ground (arith, any-none p xs)

-- A property of an object used as a dictionary: `headers['key']`.
abbrev pub lookup {ℓ} : {V : Type ℓ} → String → List (String × V) → Option V
lookup k [] = none
lookup k ((j, v) ∷ m) = if j == k then some v else lookup k m

module _ {ℓ} {A : Type ℓ} where
  -- Some element of the list has the property.
  abbrev pub Some : (A → Type 0) → List A → Type 0
  Some P [] = ⊥
  Some P (x ∷ xs) = P x ⊎ Some P xs
