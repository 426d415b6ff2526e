-- ===== src/Gateway/Scenarios.antt =====
-- Calls of the throttler for one key and for another: the runs at which the theorems on it are
-- applied.
use ecommerce_microservices.Common.{
  ℕ, suc, ◌+◌, ◌*◌, ◌-◌, ◌≤◌, ◌<◌, min, String, true, false, ◌≡◌, refl, ap, inl, inr, none, some,
  List, [], ◌∷◌, arith, ok, All, if◌then◌else◌, ◌==◌, succeeded, Bool-cases, eq_iff,
}
use ecommerce_microservices.Common.Text.{template}
use Prim.Native.String
use Prim.Native.String.{count}
use text.Mathlib.TextLemmas.{length-append}
use ecommerce_microservices.Gateway.Throttler.{Redis, Env, increment, entry, block_key, ttl_seconds}
use ecommerce_microservices.Gateway.Throttler.Runs.{Ask, IsApart, let_through}
use ecommerce_microservices.Gateway.Throttler.Windows.{
  first_ask, asks_of, IsServed, window_bound, window_exact,
}
use ecommerce_microservices.Gateway.Throttler.Blocks.{block_forgotten, orphan_counts_forever}

-- The throttler: one key, at most two hits in a window of a minute.
abbrev at : ℕ → Env
at now = record { now = now; incremented = true; expiry_set = true; block_set = true }

abbrev empty : Redis
empty key = none

-- A key that is too short to be the key of a block.
too_short : (k : String) → "ip" ≡ block_key k → ⊥
unfolding template
too_short k e = omega (arith, ap count e, length-append k (String.◌++◌ ":block" ""))

short-IsApart : IsApart "ip"
short-IsApart k = elim (Bool-cases ("ip" == block_key k)) [
  | inr other ↦ other
  | inl same ↦ absurd (too_short k ((eq_iff "ip" (block_key k)).0 same))
]

empty_entry : (now : ℕ) (key : String) → entry now key empty ≡ none
unfolding entry
empty_entry now key = refl

abbrev later : List Ask
later =
    record { env = at 10; key = "ip" }
    ∷ record { env = at 15; key = "other" }
    ∷ record { env = at 20; key = "ip" }
    ∷ []

later_inside : All (λ a. a.env.now < 0 + ttl_seconds 60000 * 1000) later
unfolding ttl_seconds
later_inside = (omega arith, (omega arith, (omega arith, tt)))

later-IsServed : All (IsServed (some (0 + ttl_seconds 60000 * 1000))) later
later-IsServed =
    let (first, (second, (third, _))) = later_inside in
    ((first, refl, refl), ((second, refl, refl), ((third, refl, refl), tt)))

window_bound_example : let_through 60000 2 60000 "ip" (first_ask "ip" (at 0) ∷ later) empty ≤ 2
window_bound_example =
    window_bound 60000 2 60000 "ip" (at 0) later empty short-IsApart (empty_entry 0 "ip") refl refl
      later_inside

window_exact_example :
    let_through 60000 2 60000 "ip" (first_ask "ip" (at 0) ∷ later) empty
    ≡ min 2 (suc (asks_of "ip" later))
window_exact_example =
    window_exact 60000 2 60000 "ip" (at 0) later empty short-IsApart (empty_entry 0 "ip") refl refl
      refl later-IsServed

abbrev blocked : Redis
blocked key =
    if key == block_key "ip" then some (record { value = 1; expires_at = some 90 }) else none

still_blocked :
    entry 70 (block_key "ip") blocked ≡ some (record { value = 1; expires_at = some 90 })
unfolding entry template
still_blocked = refl

counter_gone : entry 70 "ip" blocked ≡ none
unfolding entry template
counter_gone = refl

block_forgotten_example :
    (increment (at 70) "ip" 60000 2 60000 blocked).0
    ≡ ok (record {
      total_hits = 1;
      time_to_expire = ttl_seconds 60000 * 1000;
      is_blocked = false;
      time_to_block_expire = 0;
    })
block_forgotten_example =
    block_forgotten (at 70) "ip" 60000 2 60000 (record { value = 1; expires_at = some 90 }) blocked
      still_blocked counter_gone (omega arith) refl refl

abbrev no_expiry : Env
no_expiry = record (at 0) { expiry_set = false }

orphan_counts_example :
    (succeeded (increment no_expiry "ip" 60000 2 60000 empty).0 ≡ false)
    × (let_through 60000 2 60000 "ip" later (increment no_expiry "ip" 60000 2 60000 empty).1
        ≤ 2 - 1)
orphan_counts_example =
    orphan_counts_forever no_expiry "ip" 60000 2 60000 later empty short-IsApart
      (empty_entry 0 "ip") refl refl
