-- ===== src/Multidevice/RateLimit.antt =====
-- internal/core/multidevice/rate_limit.go: token buckets. The source counts tokens as floats; here a token
-- is `token_unit` = 60 · 10^9 parts, so that a bucket of `limit` tokens a minute gains exactly `limit`
-- parts in each nanosecond, and no rounding is modelled. A time is a number of nanoseconds; the two
-- `time.Now()` of one call (a new bucket's and the refill's) are one `now`.
pub mod Bounds
pub mod Tests
use Prim.Native.String.{◌++◌ as text_append}
use aps.Base.{
  ℕ, ◌+◌, ◌-◌, ◌*◌, ◌/◌, String, Bool, true, false, Option, none, some, List, Dict, lookup, insert,
  ltb, leb, nat_eq, if◌then◌else◌,
}

abbrev pub token_unit : ℕ
token_unit = 60000000000

-- `rate` is the parts that are gained in a nanosecond.
pub record TokenBucket : Type 0 where
  pub tokens : ℕ
  pub max : ℕ
  pub rate : ℕ
  pub last_check : ℕ

-- `refill`
unfoldable pub refill : ℕ → TokenBucket → TokenBucket
refill now tb =
    if leb now tb.last_check
    then tb
    else let filled = tb.tokens + (now - tb.last_check) * tb.rate in
      record tb { tokens = if ltb tb.max filled then tb.max else filled; last_check = now }

abbrev pub Buckets : Type 0
Buckets = Dict TokenBucket

-- `rateLimitKey`
unfoldable pub rate_limit_key : String → String → String
rate_limit_key device_id workspace_id = text_append device_id (text_append ":" workspace_id)

abbrev pub new_bucket : ℕ → ℕ → TokenBucket
new_bucket now limit = record {
  tokens = limit * token_unit;
  max = limit * token_unit;
  rate = limit;
  last_check = now;
}

-- `getBucket`: a bucket that exists keeps the limit with which it was made.
unfoldable pub get_bucket : ℕ → Buckets → String → ℕ → TokenBucket
get_bucket now buckets key limit = elim (lookup key buckets) [
  | some tb ↦ tb
  | none ↦ new_bucket now limit
]

-- The three results of a call; `retry_after` is in milliseconds.
pub record Verdict : Type 0 where
  pub allowed : Bool
  pub remaining : ℕ
  pub retry_after : ℕ

abbrev pub unlimited : Verdict
unlimited = record { allowed = true; remaining = 0; retry_after = 0 }

-- `time.Duration(deficit/bucket.rate*1000)`, rounded down
unfoldable pub retry_millis : TokenBucket → ℕ
retry_millis tb = (token_unit - tb.tokens) / (1000000 * tb.rate)

abbrev pub refused : TokenBucket → Verdict
refused tb = record { allowed = false; remaining = 0; retry_after = retry_millis tb }

-- `Consume` on the refilled bucket
unfoldable pub take_token : TokenBucket → Verdict × TokenBucket
take_token tb =
    if ltb tb.tokens token_unit
    then (refused tb, tb)
    else let left = tb.tokens - token_unit in
      (
        record { allowed = true; remaining = left / token_unit; retry_after = 0 },
        record tb { tokens = left },
      )

-- `Consume`
unfoldable pub consume : ℕ → Buckets → String → String → ℕ → Verdict × Buckets
consume now buckets device_id workspace_id limit =
    let key = rate_limit_key device_id workspace_id in
    let (verdict, tb) = take_token (refill now (get_bucket now buckets key limit)) in
    if nat_eq limit 0 then (unlimited, buckets) else (verdict, insert key tb buckets)

-- `Check`
unfoldable pub check : ℕ → Buckets → String → String → ℕ → Verdict × Buckets
check now buckets device_id workspace_id limit =
    let key = rate_limit_key device_id workspace_id in
    let tb = refill now (get_bucket now buckets key limit) in
    let remaining = tb.tokens / token_unit in
    let verdict =
      if ltb remaining 1
      then refused tb
      else record { allowed = true; remaining = remaining; retry_after = 0 } in
    if nat_eq limit 0 then (unlimited, buckets) else (verdict, insert key tb buckets)
