-- ===== src/Gateway/Throttler.antt =====
-- How often one may ask: api-gateway/src/common/throttler/throttler.ts, with the commands of Redis
-- that it sends. Times are milliseconds.
pub mod Runs
pub mod Windows
pub mod Blocks
use ecommerce_microservices.Common.{
  ℕ, suc, ◌+◌, ◌-◌, ◌*◌, String, Bool, true, false, Option, none, some, List, [], ◌∷◌,
  if◌then◌else◌, get_or, ltb, eqb, ◌==◌, ◌&&◌, not, Result, ok, err, Exec, pure, gets, modify,
  throw_if, ◌>>=◌, ◌>>◌,
}
use ecommerce_microservices.Common.Text.{template}
use Prim.Native.Nat.{◌/◌}

-- The value of a key, as a number, and when it expires: `none` where no expiry is set.
pub record Entry : Type 0 where
  pub value : ℕ
  pub expires_at : Option ℕ

abbrev pub Redis : Type 0
Redis = String → Option Entry

pub data RedisError : Type 0 where
  unreachable : RedisError

-- One call's surroundings: the clock, and whether each command is answered.
pub record Env : Type 0 where
  pub now : ℕ
  pub incremented : Bool
  pub expiry_set : Bool
  pub block_set : Bool

pub record ThrottlerStorageRecord : Type 0 where
  pub total_hits : ℕ
  pub time_to_expire : ℕ
  pub is_blocked : Bool
  pub time_to_block_expire : ℕ

abbrev pub is_live : ℕ → Entry → Bool
is_live now e = elim e.expires_at [ none ↦ true | some t ↦ ltb now t ]

-- The entry of a key, unless it has expired.
unfoldable pub entry : ℕ → String → Redis → Option Entry
entry now key redis = elim (redis key) [
  | none ↦ none
  | some e ↦ if is_live now e then some e else none
]

abbrev pub put : String → Entry → Redis → Redis
put key e redis k = if k == key then some e else redis k

-- INCR: the new value, and the keyspace after it.
unfoldable pub count_up : ℕ → String → Redis → Entry
unfolding entry
count_up now key redis = elim (entry now key redis) [
  | none ↦ record { value = 1; expires_at = none }
  | some e ↦ record e { value = e.value + 1 }
]

-- PTTL, where its negative codes are 0: the caller takes the maximum with 0.
unfoldable pub time_left : ℕ → String → Redis → ℕ
unfolding entry
time_left now key redis = elim (entry now key redis) [
  | none ↦ 0
  | some e ↦ elim e.expires_at [ none ↦ 0 | some t ↦ t - now ]
]

-- `Math.ceil(ms / 1000)`
unfoldable pub seconds : ℕ → ℕ
seconds ms = (ms + 999) / 1000

-- `Math.max(Math.ceil(ttl / 1000), 1)`
unfoldable pub ttl_seconds : ℕ → ℕ
unfolding seconds
ttl_seconds ttl = let s = seconds ttl in if ltb s 1 then 1 else s

abbrev pub block_key : String → String
block_key key = template (key ∷ ":block" ∷ [])

-- The part of `increment` for a caller that is above the limit: SET … EX … NX, and the time that
-- the block has left.
unfoldable pub start_block : Env → String → ℕ → Exec Redis RedisError ℕ
unfolding entry time_left seconds
start_block env key block_duration = do
  throw_if (not env.block_set) unreachable
  held ← gets (entry env.now (block_key key))
  elim held [
    | none ↦
        modify (
          put (block_key key)
            (record { value = 1; expires_at = some (env.now + seconds block_duration * 1000) }))
        >> pure block_duration
    | some _ ↦ gets (time_left env.now (block_key key))
  ]

-- EXPIRE, on a key with this entry.
expire : Env → String → ℕ → Entry → Exec Redis RedisError (Unit {0})
unfolding ttl_seconds
expire env key ttl e = do
  throw_if (not env.expiry_set) unreachable
  modify (put key (record e { expires_at = some (env.now + ttl_seconds ttl * 1000) }))

-- INCR, and EXPIRE on the first hit.
unfoldable pub count_hit : Env → String → ℕ → Exec Redis RedisError ℕ
unfolding count_up expire
count_hit env key ttl = do
  throw_if (not env.incremented) unreachable
  e ← gets (count_up env.now key)
  modify (put key e)
  (if eqb e.value 1 then expire env key ttl e else pure tt)
  pure e.value

unfoldable pub increment :
    Env → String → (ttl limit block_duration : ℕ) → Exec Redis RedisError ThrottlerStorageRecord
unfolding count_hit start_block time_left seconds
increment env key ttl limit block_duration = do
  current ← count_hit env key ttl
  remaining ← gets (time_left env.now key)
  let blocked = ltb limit current
  to_block ←
      (if blocked && ltb 0 (seconds block_duration)
        then start_block env key block_duration
        else pure 0)
  pure (record {
    total_hits = current;
    time_to_expire = remaining;
    is_blocked = blocked;
    time_to_block_expire = to_block;
  })
