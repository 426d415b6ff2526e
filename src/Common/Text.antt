-- ===== src/Common/Text.antt =====
-- Template literals, and numbers as text.
use Prim.Native.Nat.{ℕ, zero, suc, ◌+◌, ◌-◌, ◌/◌, ◌%◌}
use Prim.Native.Char.{Char, code}
use Prim.Native.String
use Prim.Native.String.{String, slice, count}
use mathlib.Core.Path.{◌≡◌, ap, ◌∙◌}
use mathlib.Core.List.{List, [], ◌∷◌}
use text.Mathlib.TextLemmas.{append-nil, nil-append, cons-append}
use ecommerce_microservices.Common.Tests.{if◌then◌else◌, ltb, eqb}

-- The parts of a template literal, put together.
unfoldable pub template : List String → String
template [] = ""
template (s ∷ parts) = String.◌++◌ s (template parts)

-- The parts with a separator between them: `parts.join(sep)`.
unfoldable pub join : String → List String → String
join sep [] = ""
join sep (s ∷ []) = s
join sep (s ∷ t ∷ parts) = String.◌++◌ s (String.◌++◌ sep (join sep (t ∷ parts)))

digit : ℕ → String
digit d = slice "0123456789" d (d + 1)

decimal_from : ℕ → ℕ → String
unfolding digit
decimal_from zero n = ""
decimal_from (suc fuel) n =
    let more = String.◌++◌ (decimal_from fuel (n / 10)) (digit (n % 10)) in
    if ltb n 10 then digit n else more

-- `String(n)` of a whole number; a number has no more digits than its value, plus one.
unfoldable pub decimal : ℕ → String
unfolding decimal_from
decimal n = decimal_from (suc n) n

zeros : ℕ → String → String
zeros zero s = s
zeros (suc n) s = String.◌++◌ "0" (zeros n s)

-- `s.padStart(width, '0')`
unfoldable pub pad_start : ℕ → String → String
unfolding zeros
pad_start width s = zeros (width - count s) s

with_char : Char → List String → List String
with_char c [] = String.◌∷◌ c "" ∷ []
with_char c (w ∷ words) = String.◌∷◌ c w ∷ words

-- `s.split(' ')`
unfoldable pub split_spaces : String → List String
unfolding with_char
split_spaces String.[] = "" ∷ []
split_spaces (String.◌∷◌ c s) =
    let words = split_spaces s in if eqb (code c) 32 then "" ∷ words else with_char c words

-- The same text as with `++`, one character after the other.
before : String → String → String
before String.[] t = t
before (String.◌∷◌ c s) t = String.◌∷◌ c (before s t)

append-before : (s t : String) → String.◌++◌ s t ≡ before s t
unfolding before
append-before String.[] t = nil-append t
append-before (String.◌∷◌ c s) t = cons-append c s t ∙ ap (String.◌∷◌ c) (append-before s t)

-- The two words of a header with a token that holds no space.
pub split_bearer :
    (token : String)
    → split_spaces token ≡ token ∷ []
    → split_spaces (template ("Bearer " ∷ token ∷ [])) ≡ "Bearer" ∷ token ∷ []
unfolding split_spaces template with_char before
split_bearer token one =
    ap (λ t. split_spaces (String.◌++◌ "Bearer " t)) (append-nil token)
    ∙ ap split_spaces (append-before "Bearer " token)
    ∙ ap (λ words. "Bearer" ∷ words) one
