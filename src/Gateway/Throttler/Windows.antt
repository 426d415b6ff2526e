-- ===== src/Gateway/Throttler/Windows.antt =====
-- One window of the counter of a key (api-gateway/src/common/throttler/throttler.ts), whatever other
-- keys are asked for in between.
use ecommerce_microservices.Common.{
  ℕ, suc, ◌+◌, ◌-◌, ◌*◌, ◌≤◌, ◌<◌, min, String, true, ◌≡◌, sym, ◌∙◌, inl, inr, Option, none, some,
  List, [], ◌∷◌, arith, if◌then◌else◌, ltb, ◌==◌, eq_refl, not, false≢true, ok, All, Bool-cases,
}
use ecommerce_microservices.Gateway.Throttler.{
  Redis, Env, entry, count_up, ttl_seconds, count_hit, increment,
}
use ecommerce_microservices.Gateway.Throttler.Runs.{
  Ask, step, is_let_through, let_through, IsAt, IsBefore, IsApart, let_through_lem, increment_keeps,
  increment-blocked, increment-healthy, hit_at, step-other, move,
}

-- From the second hit of a window on.
pub rest_bound :
    (ttl limit block_duration n : ℕ) (expiry : Option ℕ) (key : String) (asks : List Ask)
    (s : Redis)
    → IsApart key
    → IsAt key (suc n) expiry s
    → All (λ a. IsBefore expiry a.env.now) asks
    → let_through ttl limit block_duration key asks s ≤ limit - suc n
unfolding let_through
rest_bound ttl limit block_duration n expiry key [] s apart at inside = omega arith
rest_bound ttl limit block_duration n expiry key (a ∷ asks) s apart at (now, later) =
    elim (Bool-cases (a.key == key)) [
      | inr other ↦
          let rest =
            rest_bound ttl limit block_duration n expiry key asks
              (step ttl limit block_duration a s) apart
              (step-other ttl limit block_duration key a s apart other ∙ at) later in
          rw other rest
      | inl own ↦ elim (hit_at ttl limit block_duration n expiry key a s own apart at now) [
        | inl (stays, refused, _) ↦
            let rest =
              rest_bound ttl limit block_duration n expiry key asks
                (step ttl limit block_duration a s) apart
                (move ttl limit block_duration (suc n) expiry key a
                  (step ttl limit block_duration a s) own stays)
                later in
            rw (own, refused) rest
        | inr (next, below, _) ↦
            let rest =
              rest_bound ttl limit block_duration (suc n) expiry key asks
                (step ttl limit block_duration a s) apart
                (move ttl limit block_duration (suc (suc n)) expiry key a
                  (step ttl limit block_duration a s) own next)
                later in
            ground (arith, below)
      ]
    ]

-- The calls for the key.
abbrev pub asks_of : String → List Ask → ℕ
asks_of key [] = 0
asks_of key (a ∷ asks) = let rest = asks_of key asks in if a.key == key then suc rest else rest

abbrev pub IsServed : Option ℕ → Ask → Type 0
IsServed expiry a =
    IsBefore expiry a.env.now × (a.env.incremented ≡ true) × (a.env.block_set ≡ true)

rest_exact :
    (ttl limit block_duration n : ℕ) (expiry : Option ℕ) (key : String) (asks : List Ask)
    (s : Redis)
    → IsApart key
    → IsAt key (suc n) expiry s
    → All (IsServed expiry) asks
    → let_through ttl limit block_duration key asks s ≡ min (limit - suc n) (asks_of key asks)
unfolding let_through
rest_exact ttl limit block_duration n expiry key [] s apart at served = omega arith
rest_exact ttl limit block_duration n expiry key (a ∷ asks) s apart at ((now, up, set), later) =
    elim (Bool-cases (a.key == key)) [
      | inr other ↦
          let rest =
            rest_exact ttl limit block_duration n expiry key asks
              (step ttl limit block_duration a s) apart
              (step-other ttl limit block_duration key a s apart other ∙ at) later in
          rw other rest
      | inl own ↦ elim (hit_at ttl limit block_duration n expiry key a s own apart at now) [
        | inl (_, _, down) ↦ absurd (false≢true (sym down ∙ up))
        | inr (next, _, exact) ↦
            let rest =
              rest_exact ttl limit block_duration (suc n) expiry key asks
                (step ttl limit block_duration a s) apart
                (move ttl limit block_duration (suc (suc n)) expiry key a
                  (step ttl limit block_duration a s) own next)
                later in
            let told = exact set in ground arith
      ]
    ]

count_hit-first :
    (key : String) (env : Env) (ttl : ℕ) (s : Redis)
    → entry env.now key s ≡ none
    → env.incremented ≡ true
    → env.expiry_set ≡ true
    → ((count_hit env key ttl s).0 ≡ ok 1)
      × IsAt key 1 (some (env.now + ttl_seconds ttl * 1000)) (count_hit env key ttl s).1
unfolding count_hit count_up
count_hit-first key env ttl s fresh up set = ground (arith, eq_refl key)

abbrev pub first_ask : String → Env → Ask
first_ask key env = record { env = env; key = key }

-- A call for the key that opens its window.
opening :
    (ttl limit block_duration : ℕ) (key : String) (env : Env) (s : Redis)
    → IsApart key
    → entry env.now key s ≡ none
    → env.incremented ≡ true
    → env.expiry_set ≡ true
    → IsAt key 1
        (some (env.now + ttl_seconds ttl * 1000))
        (step ttl limit block_duration (first_ask key env) s)
      × (is_let_through ttl limit block_duration (first_ask key env) s ≡ true → 1 ≤ limit)
      × (env.block_set ≡ true
          → is_let_through ttl limit block_duration (first_ask key env) s ≡ not (ltb limit 1))
unfolding step is_let_through
opening ttl limit block_duration key env s apart fresh up set =
    let (counted, at) = count_hit-first key env ttl s fresh up set in
    let (below, exact) =
      let_through_lem limit 1 (increment env key ttl limit block_duration s).0
        (increment-blocked env key ttl limit block_duration 1 s counted) in
    (
      increment_keeps key apart env key ttl limit block_duration s ∙ at,
      below,
      λ b. exact (increment-healthy env key ttl limit block_duration 1 s counted b),
    )

-- The first call for a key opens a window, where its counter has no live entry and Redis answers
-- INCR and EXPIRE. Of this call and the calls that follow before the window ends, for this key and
-- for others in any order, at most `limit` for the key are let through, whichever later commands
-- fail, provided that no key of a block is the key.
pub window_bound :
    (ttl limit block_duration : ℕ) (key : String) (env : Env) (asks : List Ask) (s : Redis)
    → IsApart key
    → entry env.now key s ≡ none
    → env.incremented ≡ true
    → env.expiry_set ≡ true
    → All (λ a. a.env.now < env.now + ttl_seconds ttl * 1000) asks
    → let_through ttl limit block_duration key (first_ask key env ∷ asks) s ≤ limit
unfolding let_through
window_bound ttl limit block_duration key env asks s apart fresh up set inside =
    let (at, below, _) = opening ttl limit block_duration key env s apart fresh up set in
    let rest =
      rest_bound ttl limit block_duration 0 (some (env.now + ttl_seconds ttl * 1000)) key asks
        (step ttl limit block_duration (first_ask key env) s) apart at inside in
    ground (arith, eq_refl key, below)

-- Where Redis answers every command in the window that a first call opens, exactly as many calls for
-- the key are let through as there are, up to the limit; calls for other keys take nothing away.
-- No key of a block is the key.
pub window_exact :
    (ttl limit block_duration : ℕ) (key : String) (env : Env) (asks : List Ask) (s : Redis)
    → IsApart key
    → entry env.now key s ≡ none
    → env.incremented ≡ true
    → env.expiry_set ≡ true
    → env.block_set ≡ true
    → All (IsServed (some (env.now + ttl_seconds ttl * 1000))) asks
    → let_through ttl limit block_duration key (first_ask key env ∷ asks) s
      ≡ min limit (suc (asks_of key asks))
unfolding let_through
window_exact ttl limit block_duration key env asks s apart fresh up set blocks served =
    let (at, _, exact) = opening ttl limit block_duration key env s apart fresh up set in
    let rest =
      rest_exact ttl limit block_duration 0 (some (env.now + ttl_seconds ttl * 1000)) key asks
        (step ttl limit block_duration (first_ask key env) s) apart at served in
    let told = exact blocks in ground (arith, eq_refl key)
