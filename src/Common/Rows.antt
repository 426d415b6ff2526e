-- ===== src/Common/Rows.antt =====
-- What holds of all rows of a table, or of some, through the queries and the updates.
use Prim.Native.Nat.{ℕ, zero, suc, ◌≤◌}
use Prim.Native.String.{String}
use mathlib.Core.Path.{◌≡◌, refl, sym, ap, ◌∙◌}
use mathlib.Core.Logic.{inl, inr}
use mathlib.Core.Bool.{Bool, true, false, false≢true}
use mathlib.Core.List.{List, [], ◌∷◌, ◌++◌}
use native.Mathlib.Omega.{arith}
use text.Mathlib.Text.{◌==◌}
use text.Mathlib.TextEquality.{eq_iff}
use ecommerce_microservices.Common.Tests.{Bool-cases}
use ecommerce_microservices.Common.Tables.{length, find, take, filter, update_where, All, Some}

module _ {ℓ} {A : Type ℓ} where
  pub Some-append_left : (P : A → Type 0) (xs ys : List A) → Some P xs → Some P (xs ++ ys)
  Some-append_left P [] ys h = absurd h
  Some-append_left P (x ∷ xs) ys (inl h) = inl h
  Some-append_left P (x ∷ xs) ys (inr h) = inr (Some-append_left P xs ys h)

  pub Some-append_right : (P : A → Type 0) (xs ys : List A) → Some P ys → Some P (xs ++ ys)
  Some-append_right P [] ys h = h
  Some-append_right P (x ∷ xs) ys h = inr (Some-append_right P xs ys h)

  pub All-map {κ μ} :
      (P : A → Type κ) (Q : A → Type μ) (xs : List A) → ((x : A) → P x → Q x) → All P xs → All Q xs
  All-map P Q [] f h = tt
  All-map P Q (x ∷ xs) f h = (f x h.0, All-map P Q xs f h.1)

  pub All-zip {κ μ} :
      (P : A → Type κ) (Q : A → Type μ) (xs : List A)
      → All P xs
      → All Q xs
      → All (λ x. P x × Q x) xs
  All-zip P Q [] h k = tt
  All-zip P Q (x ∷ xs) h k = ((h.0, k.0), All-zip P Q xs h.1 k.1)

  pub All-update_where {κ μ} :
      (P : A → Type κ) (Q : A → Type μ) (p : A → Bool) (f : A → A) (xs : List A)
      → ((x : A) → p x ≡ true → P x → Q (f x))
      → ((x : A) → p x ≡ false → P x → Q x)
      → All P xs
      → All Q (update_where p f xs)
  All-update_where P Q p f [] hit miss h = tt
  All-update_where P Q p f (x ∷ xs) hit miss h = (
    elim (Bool-cases (p x)) [
      | inl e ↦ rw (e, update_where) (hit x e h.0)
      | inr e ↦ rw (e, update_where) (miss x e h.0)
    ],
    All-update_where P Q p f xs hit miss h.1,
  )

  -- No two rows have one key.
  abbrev pub IsKeyed : (A → String) → List A → Type 0
  IsKeyed key [] = Unit
  IsKeyed key (x ∷ xs) = All (λ y. (key y == key x) ≡ false) xs × IsKeyed key xs

  -- Any row of the table with the key of `x` is `x`.
  abbrev pub IsOnly : (A → String) → List A → A → Type ℓ
  IsOnly key xs x = All (λ y. (key y == key x) ≡ true → y ≡ x) xs

  pub IsKeyed-IsOnly : (key : A → String) (xs : List A) → IsKeyed key xs → All (IsOnly key xs) xs
  IsKeyed-IsOnly key [] h = tt
  IsKeyed-IsOnly key (x ∷ xs) h = (
    (
      (λ e. refl),
      All-map _ (λ y. (key y == key x) ≡ true → y ≡ x) xs (λ y n e. absurd (false≢true (sym n ∙ e)))
          h.0,
    ),
    All-map _ (IsOnly key (x ∷ xs)) xs
        (λ y (n, only). (
          (λ e. absurd (
              false≢true
                (sym n ∙ ((eq_iff (key y) (key x)).1 (sym ((eq_iff (key x) (key y)).0 e)))))),
          only,
        ))
        (All-zip _ (IsOnly key xs) xs h.0 (IsKeyed-IsOnly key xs h.1)),
  )

  pub take_all : (n : ℕ) (xs : List A) → length xs ≤ n → take n xs ≡ xs
  take_all zero [] h = refl
  take_all zero (x ∷ xs) h = absurd (omega arith)
  take_all (suc n) [] h = refl
  take_all (suc n) (x ∷ xs) h = ap (λ l. x ∷ l) (take_all n xs (omega arith))

module _ {A : Type 0} where
  -- Every row of a table is one of its rows.
  pub All-self : (xs : List A) → All (λ x. Some (λ y. y ≡ x) xs) xs
  All-self [] = tt
  All-self (x ∷ xs) = (
    inl refl,
    All-map (λ z. Some (λ y. y ≡ z) xs) (λ z. Some (λ y. y ≡ z) (x ∷ xs)) xs (λ z h. inr h)
        (All-self xs),
  )

  pub Some-filter :
      (p : A → Bool) (x : A) (xs : List A)
      → p x ≡ true
      → Some (λ y. y ≡ x) xs
      → Some (λ y. y ≡ x) (filter p xs)
  Some-filter p x [] h nowhere = absurd nowhere
  Some-filter p x (y ∷ xs) h (inl same) = let hit : p y ≡ true = ap p same ∙ h in rw hit (inl same)
  Some-filter p x (y ∷ xs) h (inr rest) = elim (Bool-cases (p y)) [
    | inl hit ↦ rw hit (inr (Some-filter p x xs h rest))
    | inr missed ↦ rw missed (Some-filter p x xs h rest)
  ]

  pub All-filter_test : (p : A → Bool) (xs : List A) → All (λ x. p x ≡ true) (filter p xs)
  All-filter_test p [] = tt
  All-filter_test p (x ∷ xs) = ground (arith, All-filter_test p xs)

  -- Rows that the query does not find are replaced by one that it does not find.
  pub find-update_other :
      (q p : A → Bool) (y : A) (xs : List A)
      → q y ≡ false
      → ((x : A) → p x ≡ true → q x ≡ false)
      → find q (update_where p (λ r. y) xs) ≡ find q xs
  find-update_other q p y [] miss other = refl
  find-update_other q p y (x ∷ xs) miss other =
      let rest = find-update_other q p y xs miss other in
      elim (Bool-cases (p x)) [
        | inl hit ↦ let gone = other x hit in ground arith
        | inr kept ↦ ground arith
      ]
