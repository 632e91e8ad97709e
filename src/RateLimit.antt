-- ===== src/RateLimit.antt =====
-- The token bucket of app/core/rate_limit.py, whose refill and take is one atomic Lua script. Tokens
-- are counted in a unit such that the bucket refills by a whole number of them in a tick of the
-- clock; a number that Lua holds as a float is held exactly. That Redis drops a key which has been
-- idle for longer than it takes to fill the bucket is left out: a missing hash is a full bucket.
pub mod Grants
use llm_gateway_rag.Common.{
  ℕ, ◌+◌, ◌-◌, ◌*◌, ◌/◌, Bool, true, false, Option, none, some, leb, min, if◌then◌else◌, String,
}
use llm_gateway_rag.Common.Dict.{Dict, lookup, insert}

-- the hash that a bucket is kept in
pub record Bucket : Type 0 where
  pub tokens : ℕ
  pub ts : ℕ

-- What the script answers; `missing` over the rate is the time to wait.
pub record Taken : Type 0 where
  pub allowed : Bool
  pub tokens : ℕ
  pub missing : ℕ

-- `capacity` and `cost` in the unit, and the units that are added in a tick
pub record Limit : Type 0 where
  pub capacity : ℕ
  pub rate : ℕ
  pub unit : ℕ
  pub ticks_per_second : ℕ

-- `math.min(capacity, tokens + math.max(0, now - ts) * rate)`, from what HMGET gives
unfoldable pub refill : Limit → Option Bucket → ℕ → ℕ
refill l none now = min l.capacity (l.capacity + (now - now) * l.rate)
refill l (some b) now = min l.capacity (b.tokens + (now - b.ts) * l.rate)

-- the script: the decision, and the hash as HSET leaves it
unfoldable pub take_tokens : Limit → Option Bucket → ℕ → ℕ → Taken × Bucket
take_tokens l bucket now cost =
    let tokens = refill l bucket now in
    if leb cost tokens
    then (
      record { allowed = true; tokens = tokens - cost; missing = 0 },
      record { tokens = tokens - cost; ts = now },
    )
    else (
      record { allowed = false; tokens = tokens; missing = cost - tokens },
      record { tokens = tokens; ts = now },
    )

pub record RateLimitDecision : Type 0 where
  pub allowed : Bool
  pub remaining : ℕ
  pub retry_after_seconds : ℕ
  pub limit : ℕ

-- `math.ceil(missing / rate)` in seconds
abbrev pub ceil_seconds : Limit → ℕ → ℕ
ceil_seconds l missing =
    let per_second = l.rate * l.ticks_per_second in (missing + (per_second - 1)) / per_second

-- `hit`, on the buckets of all keys
unfoldable pub hit : Limit → String → ℕ → ℕ → Dict Bucket → RateLimitDecision × Dict Bucket
hit l key now cost buckets =
    let (h, b) = take_tokens l (lookup key buckets) now cost in
    (
      record {
        allowed = h.allowed;
        remaining = h.tokens / l.unit;
        retry_after_seconds = ceil_seconds l h.missing;
        limit = l.capacity / l.unit;
      },
      insert key b buckets,
    )
