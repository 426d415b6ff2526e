-- ===== src/Gateway/Throttler/Runs.antt =====
-- Runs of calls of `increment`
-- (api-gateway/src/common/throttler/throttler.ts), and what one call does to the counter of a key.
use ecommerce_microservices.Common.{
  ℕ, suc, ◌≤◌, ◌<◌, String, Bool, true, false, ◌≡◌, sym, ap, ◌∙◌, ◌⊎◌, inl, inr, Option, none, some,
  List, [], ◌∷◌, arith, if◌then◌else◌, ltb, ◌==◌, eq_iff, eq_refl, not, false≢true, Result, ok, err,
  Bool-cases, succeeded, subst,
}
use ecommerce_microservices.Gateway.Throttler.{
  Redis, RedisError, unreachable, Env, ThrottlerStorageRecord, entry, count_up, block_key,
  start_block, count_hit, increment,
}

-- A call of `increment` for a key. The client answers to `is_blocked`.
pub record Ask : Type 0 where
  pub env : Env
  pub key : String

-- The calls for the key that are let through, in a run of calls.
module _ (ttl limit block_duration : ℕ) where
  unfoldable pub step : Ask → Redis → Redis
  step a s = (increment a.env a.key ttl limit block_duration s).1

  unfoldable pub is_let_through : Ask → Redis → Bool
  is_let_through a s = elim ((increment a.env a.key ttl limit block_duration s).0) [
    | err _ ↦ false
    | ok r ↦ not r.is_blocked
  ]

  unfoldable pub let_through : String → List Ask → Redis → ℕ
  unfolding step is_let_through
  let_through key [] s = 0
  let_through key (a ∷ asks) s =
      let rest = let_through key asks (step a s) in
      if a.key == key then (if is_let_through a s then suc rest else rest) else rest

-- The counter of the key stands at `n`, with the expiry that is given.
abbrev pub IsAt : String → ℕ → Option ℕ → Redis → Type 0
IsAt key n expiry s = s key ≡ some (record { value = n; expires_at = expiry })

-- A time before the expiry; every time is before one that is not set.
abbrev pub IsBefore : Option ℕ → ℕ → Type 0
IsBefore none now = Unit
IsBefore (some end) now = now < end

-- No key of a block is the key.
abbrev pub IsApart : String → Type 0
IsApart key = (k : String) → (key == block_key k) ≡ false

-- An error, or a record that counts `n` hits and is blocked exactly above the limit.
abbrev pub Answers : ℕ → ℕ → Result RedisError ThrottlerStorageRecord → Type 0
Answers limit n (err _) = Unit
Answers limit n (ok r) = (r.total_hits ≡ n) × (r.is_blocked ≡ ltb limit n)

start_block_keeps :
    (key : String)
    → IsApart key
    → (env : Env) (k : String) (block_duration : ℕ) (s : Redis)
    → (start_block env k block_duration s).1 key ≡ s key
unfolding start_block
start_block_keeps key apart env k block_duration s = ground (arith, apart k)

-- What a call leaves at the key is what counting the hit leaves there.
pub increment_keeps :
    (key : String)
    → IsApart key
    → (env : Env) (k : String) (ttl limit block_duration : ℕ) (s : Redis)
    → (increment env k ttl limit block_duration s).1 key ≡ (count_hit env k ttl s).1 key
unfolding increment
increment_keeps key apart env k ttl limit block_duration s =
    ground (arith, start_block_keeps key apart env k block_duration (count_hit env k ttl s).1)

count_hit-other :
    (key : String) (env : Env) (k : String) (ttl : ℕ) (s : Redis)
    → (key == k) ≡ false
    → (count_hit env k ttl s).1 key ≡ s key
unfolding count_hit
count_hit-other key env k ttl s other = ground arith

pub count_hit-next :
    (key : String) (env : Env) (ttl n : ℕ) (expiry : Option ℕ) (s : Redis)
    → IsAt key (suc n) expiry s
    → IsBefore expiry env.now
    → (env.incremented ≡ true)
    → (count_hit env key ttl s).0 ≡ ok (suc (suc n))
      × IsAt key (suc (suc n)) expiry (count_hit env key ttl s).1
unfolding count_hit count_up entry
count_hit-next key env ttl n none s at inside up = ground (arith, eq_refl key)
count_hit-next key env ttl n (some end) s at inside up = ground (arith, eq_refl key)

count_hit-down :
    (env : Env) (key : String) (ttl : ℕ) (s : Redis)
    → env.incremented ≡ false
    → count_hit env key ttl s ≡ (err unreachable, s)
unfolding count_hit
count_hit-down env key ttl s down = ground arith

-- The answer is blocked exactly above the limit.
pub increment-blocked :
    (env : Env) (key : String) (ttl limit block_duration n : ℕ) (s : Redis)
    → (count_hit env key ttl s).0 ≡ ok n
    → Answers limit n (increment env key ttl limit block_duration s).0
unfolding increment
increment-blocked env key ttl limit block_duration n s counted = ground arith

pub increment-healthy :
    (env : Env) (key : String) (ttl limit block_duration n : ℕ) (s : Redis)
    → (count_hit env key ttl s).0 ≡ ok n
    → env.block_set ≡ true
    → succeeded (increment env key ttl limit block_duration s).0 ≡ true
unfolding increment start_block
increment-healthy env key ttl limit block_duration n s counted up = ground arith

-- A call for the key, in the window: it fails to count, or it counts and is let through up to the
-- limit only.
abbrev pub HitCases : (ttl limit block_duration n : ℕ) → Option ℕ → Ask → Redis → Type 0
HitCases ttl limit block_duration n expiry a s =
    (IsAt a.key (suc n) expiry (step ttl limit block_duration a s)
      × (is_let_through ttl limit block_duration a s ≡ false)
      × (a.env.incremented ≡ false))
    ⊎ (IsAt a.key (suc (suc n)) expiry (step ttl limit block_duration a s)
        × (is_let_through ttl limit block_duration a s ≡ true → suc (suc n) ≤ limit)
        × (a.env.block_set ≡ true
            → is_let_through ttl limit block_duration a s ≡ not (ltb limit (suc (suc n)))))

pub let_through_lem :
    (limit n : ℕ) (r : Result RedisError ThrottlerStorageRecord)
    → Answers limit n r
    → ((elim r [ err _ ↦ false | ok q ↦ not q.is_blocked ]) ≡ true → n ≤ limit)
      × (succeeded r ≡ true
          → (elim r [ err _ ↦ false | ok q ↦ not q.is_blocked ]) ≡ not (ltb limit n))
let_through_lem limit n (err e) h = (λ p. absurd (false≢true p), λ p. absurd (false≢true p))
let_through_lem limit n (ok r) (_, blocked) = (λ p. ground arith, λ p. ap not blocked)

down_refused :
    (ttl limit block_duration : ℕ) (a : Ask) (s : Redis)
    → a.env.incremented ≡ false
    → is_let_through ttl limit block_duration a s ≡ false
unfolding is_let_through increment count_hit
down_refused ttl limit block_duration a s down = ground arith

hit_cases :
    (ttl limit block_duration n : ℕ) (expiry : Option ℕ) (a : Ask) (s : Redis)
    → IsApart a.key
    → IsAt a.key (suc n) expiry s
    → IsBefore expiry a.env.now
    → HitCases ttl limit block_duration n expiry a s
unfolding step is_let_through
hit_cases ttl limit block_duration n expiry a s apart at inside =
    let same = increment_keeps a.key apart a.env a.key ttl limit block_duration s in
    elim (Bool-cases a.env.incremented) [
      | inl up ↦
          let (counted, next) = count_hit-next a.key a.env ttl n expiry s at inside up in
          let (below, exact) =
            let_through_lem limit (suc (suc n)) (increment a.env a.key ttl limit block_duration s).0
              (increment-blocked a.env a.key ttl limit block_duration (suc (suc n)) s counted) in
          inr (
            same ∙ next,
            below,
            λ set. exact (
                increment-healthy a.env a.key ttl limit block_duration (suc (suc n)) s counted set),
          )
      | inr down ↦ inl (
        same ∙ ap (λ r. r.1 a.key) (count_hit-down a.env a.key ttl s down) ∙ at,
        down_refused ttl limit block_duration a s down,
        down,
      )
    ]

pub hit_at :
    (ttl limit block_duration n : ℕ) (expiry : Option ℕ) (key : String) (a : Ask) (s : Redis)
    → (a.key == key) ≡ true
    → IsApart key
    → IsAt key (suc n) expiry s
    → IsBefore expiry a.env.now
    → HitCases ttl limit block_duration n expiry a s
hit_at ttl limit block_duration n expiry key a s own apart at inside =
    let e = (eq_iff a.key key).0 own in
    hit_cases ttl limit block_duration n expiry a s (subst IsApart (sym e) apart)
      (subst (λ k. IsAt k (suc n) expiry s) (sym e) at) inside

pub step-other :
    (ttl limit block_duration : ℕ) (key : String) (a : Ask) (s : Redis)
    → IsApart key
    → (a.key == key) ≡ false
    → step ttl limit block_duration a s key ≡ s key
unfolding step
step-other ttl limit block_duration key a s apart other =
    increment_keeps key apart a.env a.key ttl limit block_duration s
    ∙ count_hit-other key a.env a.key ttl s (flipped other)
  where
    flipped : (a.key == key) ≡ false → (key == a.key) ≡ false
    flipped e = ground (arith, eq_iff a.key key, eq_iff key a.key)

pub move :
    (ttl limit block_duration n : ℕ) (expiry : Option ℕ) (key : String) (a : Ask) (s : Redis)
    → (a.key == key) ≡ true
    → IsAt a.key n expiry s
    → IsAt key n expiry s
move ttl limit block_duration n expiry key a s own at =
    subst (λ k. IsAt k n expiry s) ((eq_iff a.key key).0 own) at
