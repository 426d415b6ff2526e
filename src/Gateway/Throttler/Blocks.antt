-- ===== src/Gateway/Throttler/Blocks.antt =====
-- The block of a key, and a counter without an expiry
-- (api-gateway/src/common/throttler/throttler.ts).
use ecommerce_microservices.Common.{
  ℕ, ◌-◌, ◌*◌, ◌≤◌, String, true, false, ◌≡◌, ◌∙◌, none, some, List, [], ◌∷◌, arith, eq_refl, ok,
  err, All, succeeded,
}
use ecommerce_microservices.Gateway.Throttler.{
  Entry, Redis, unreachable, Env, entry, count_up, time_left, ttl_seconds, block_key, count_hit,
  increment,
}
use ecommerce_microservices.Gateway.Throttler.Runs.{
  Ask, let_through, IsAt, IsApart, increment_keeps,
}
use ecommerce_microservices.Gateway.Throttler.Windows.{rest_bound}

-- A key that is still blocked is let through as soon as its counter has expired: the answer counts
-- one hit and is not blocked, whatever time the block has left, where the limit is at least one and
-- Redis answers INCR and EXPIRE.
pub block_forgotten :
    (env : Env) (key : String) (ttl limit block_duration : ℕ) (block : Entry) (s : Redis)
    → entry env.now (block_key key) s ≡ some block
    → entry env.now key s ≡ none
    → 1 ≤ limit
    → env.incremented ≡ true
    → env.expiry_set ≡ true
    → (increment env key ttl limit block_duration s).0
      ≡ ok (record {
        total_hits = 1;
        time_to_expire = ttl_seconds ttl * 1000;
        is_blocked = false;
        time_to_block_expire = 0;
      })
unfolding increment count_hit count_up time_left entry
block_forgotten env key ttl limit block_duration block s blocked fresh positive up set =
    ground (arith, eq_refl key)

count_hit-orphan :
    (env : Env) (key : String) (ttl : ℕ) (s : Redis)
    → entry env.now key s ≡ none
    → env.incremented ≡ true
    → env.expiry_set ≡ false
    → ((count_hit env key ttl s).0 ≡ err unreachable) × IsAt key 1 none (count_hit env key ttl s).1
unfolding count_hit count_up
count_hit-orphan env key ttl s fresh up lost = ground (arith, eq_refl key)

everywhere : (asks : List Ask) → All (λ a. Unit {0}) asks
everywhere [] = tt
everywhere (a ∷ asks) = (tt, everywhere asks)

-- Where EXPIRE fails after the INCR that opens a window, the counter never expires: the call fails,
-- and of all the calls for the key from then on, however late they come, at most `limit - 1` are let
-- through in all. No key of a block is the key.
pub orphan_counts_forever :
    (env : Env) (key : String) (ttl limit block_duration : ℕ) (asks : List Ask) (s : Redis)
    → IsApart key
    → entry env.now key s ≡ none
    → env.incremented ≡ true
    → env.expiry_set ≡ false
    → (succeeded (increment env key ttl limit block_duration s).0 ≡ false)
      × (let_through ttl limit block_duration key asks
            (increment env key ttl limit block_duration s).1
          ≤ limit - 1)
unfolding increment
orphan_counts_forever env key ttl limit block_duration asks s apart fresh up lost =
    let (failed, at) = count_hit-orphan env key ttl s fresh up lost in
    (
      ground arith,
      rest_bound ttl limit block_duration 0 none key asks
          (increment env key ttl limit block_duration s).1 apart
          (increment_keeps key apart env key ttl limit block_duration s ∙ at) (everywhere asks),
    )
