-- ===== src/TokenBucket.antt =====
-- common/token_bucket.rs: a bucket of tokens that callers take from while a task fills it. The tokens
-- that an interval adds are computed in floating point: `tokens_to_add` is a parameter.
pub mod Concurrent
pub mod Alone
mod Tests
use peer_link.Common.{
  ℕ, ◌+◌, ◌-◌, ◌*◌, ◌%◌, ◌/◌, ◌^◌, Bool, true, false, Option, none, some, ltb, leb, ◌==◌,
  if◌then◌else◌, min, max,
}

pub record LimiterConfig : Type 0 where
  pub burst_rate : Option ℕ
  pub bps : Option ℕ
  pub fill_duration_ms : Option ℕ

pub record BucketConfig : Type 0 where
  pub capacity : ℕ
  pub fill_rate : ℕ
  -- In milliseconds.
  pub refill_interval : ℕ

pub record TokenBucket : Type 0 where
  pub available_tokens : ℕ
  pub last_refill_time : ℕ
  pub config : BucketConfig

abbrev unwrap_or : ℕ → Option ℕ → ℕ
unwrap_or d none = d
unwrap_or d (some n) = n

abbrev u64_max : ℕ
u64_max = 2 ^ 64 - 1

unfoldable pub refill_interval_of : Option ℕ → ℕ
refill_interval_of none = 10
refill_interval_of (some x) = max 1 x

unfoldable pub bucket_config : LimiterConfig → BucketConfig
unfolding refill_interval_of
bucket_config cfg =
    let burst_rate : ℕ = max 1 (unwrap_or 1 cfg.burst_rate) in
    let fill_rate : ℕ = max 8196 (unwrap_or (u64_max / burst_rate) cfg.bps) in
    record {
      capacity = burst_rate * fill_rate % 2 ^ 64;
      fill_rate = fill_rate;
      refill_interval = refill_interval_of cfg.fill_duration_ms;
    }

unfoldable pub new_from_cfg : BucketConfig → TokenBucket
new_from_cfg config = record {
  available_tokens = config.capacity;
  last_refill_time = 0;
  config = config;
}

unfoldable pub new : ℕ → ℕ → ℕ → TokenBucket
unfolding new_from_cfg
new capacity bps refill_interval =
    new_from_cfg
      (record { capacity = capacity; fill_rate = bps; refill_interval = refill_interval })

-- `current.saturating_add(tokens_to_add).min(capacity)`
abbrev pub filled : ℕ → ℕ → ℕ → ℕ
filled capacity tokens current = min (min (current + tokens) u64_max) capacity

-- `refill`, when no call runs beside it. The elapsed time is `saturating_sub`, in microseconds.
unfoldable pub refill : (tokens_to_add : ℕ → ℕ → ℕ) → ℕ → TokenBucket → TokenBucket
refill tokens_to_add now b =
    let tokens : ℕ = tokens_to_add b.config.fill_rate (now - b.last_refill_time) in
    if tokens == 0 then record b { last_refill_time = now } else record b {
      last_refill_time = now;
      available_tokens = filled b.config.capacity tokens b.available_tokens;
    }

-- `try_consume`, when no call runs beside it.
unfoldable pub try_consume : ℕ → TokenBucket → TokenBucket × Bool
try_consume tokens b =
    if ltb b.config.capacity tokens
    then (b, false)
    else (if ltb b.available_tokens tokens
        then (b, false)
        else (record b { available_tokens = b.available_tokens - tokens }, true))
