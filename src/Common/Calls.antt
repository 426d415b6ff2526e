-- ===== src/Common/Calls.antt =====
-- A call of an `async` method: it changes the state that it works on, and returns or throws. What
-- was written before a throw stays written, so the state comes back in both cases.
use mathlib.Core.Path.{◌≡◌, refl}
use mathlib.Core.Logic.{◌⊎◌, inl, inr}
use mathlib.Core.Bool.{Bool, true, false}
use mathlib.Core.Option.{Option, none, some}
use native.Mathlib.Omega.{arith}
use ecommerce_microservices.Common.Tests.{if◌then◌else◌}

pub data Result (E A : Type 0) : Type 0 where
  ok : A → Result E A
  err : E → Result E A

abbrev pub Exec : Type 0 → Type 0 → Type 0 → Type 0
Exec S E A = S → Result E A × S

module _ {S E : Type 0} where
  abbrev pub pure : {A : Type 0} → A → Exec S E A
  pure a s = (ok a, s)

  abbrev pub throw : {A : Type 0} → E → Exec S E A
  throw e s = (err e, s)

  abbrev pub gets : {A : Type 0} → (S → A) → Exec S E A
  gets f s = (ok (f s), s)

  abbrev pub modify : (S → S) → Exec S E (Unit {0})
  modify f s = (ok tt, f s)

  abbrev pub throw_if : Bool → E → Exec S E (Unit {0})
  throw_if b e s = (if b then err e else ok tt, s)

  abbrev pub or_throw : {A : Type 0} → Option A → E → Exec S E A
  or_throw none e = throw e
  or_throw (some a) e = pure a

infixl 5 ◌>>=◌ ◌>>◌
abbrev pub ◌>>=◌ : {S E A B : Type 0} → Exec S E A → (A → Exec S E B) → Exec S E B
◌>>=◌ m f s = let (r, s') = m s in elim r [ ok a ↦ f a s' | err e ↦ (err e, s') ]

abbrev pub ◌>>◌ : {S E B : Type 0} → Exec S E (Unit {0}) → Exec S E B → Exec S E B
m >> k = m >>= λ _. k

-- To split on a result and keep the equation.
pub Result-cases :
    {E A : Type 0} (r : Result E A) → ((a : A) × (r ≡ ok a)) ⊎ ((e : E) × (r ≡ err e))
Result-cases (ok a) = inl (a, refl)
Result-cases (err e) = inr (e, refl)

-- Did the call return?
abbrev pub succeeded : {E A : Type 0} → Result E A → Bool
succeeded (ok _) = true
succeeded (err _) = false

-- A call whose result is dropped leaves the state that it leaves.
pub drop_state :
    {S E A : Type 0} (m : Exec S E A) (s : S) → ((m >>= (λ _. pure (tt {0}))) s).1 ≡ (m s).1
drop_state m s = ground arith
