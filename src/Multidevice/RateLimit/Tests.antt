-- ===== src/Multidevice/RateLimit/Tests.antt =====
-- internal/core/multidevice/rate_limit.go: runs of the limiter, and the theorems at them.
use Prim.Native.String.{◌++◌ as text_append}
use aps.Base.{
  ℕ, ◌+◌, ◌-◌, ◌*◌, ◌≤◌, ◌≡◌, refl, ap, true, false, List, [], ◌∷◌, lookup, insert, arith,
}
use aps.Multidevice.RateLimit.{
  token_unit, TokenBucket, refill, Buckets, rate_limit_key, new_bucket, get_bucket, retry_millis,
  Verdict, take_token, consume,
}
use aps.Multidevice.RateLimit.Bounds.{
  Request, serve, serve_budget, retry_after_enough, consume_shared,
}

-- Two requests a minute.
abbrev bucket : TokenBucket
bucket = new_bucket 0 2

abbrev buckets : Buckets
buckets = ("d:w", bucket) ∷ []

abbrev ask : ℕ → Request
ask now = record { now = now; device_id = "d"; workspace_id = "w"; limit = 2 }

abbrev requests : List Request
requests = ask 1 ∷ ask 2 ∷ ask 3 ∷ ask 30000000004 ∷ []

three_pass : (serve "d:w" buckets requests).1 ≡ 3
unfolding serve consume get_bucket refill take_token rate_limit_key lookup insert retry_millis
three_pass = refl

serve_budget_example :
    (serve "d:w" buckets requests).1 * token_unit
    ≤ bucket.tokens + (30000000004 - bucket.last_check) * bucket.rate
serve_budget_example =
    serve_budget 30000000004 "d:w" buckets requests bucket (omega arith) (unfold lookup in refl)
      (omega arith)

-- Both tokens were taken at the time 3.
abbrev drained : Buckets
drained = ("d:w", record bucket { tokens = 6; last_check = 3 }) ∷ []

drained_refused :
    (consume 4 drained "d" "w" 2).0 ≡ record { allowed = false; remaining = 0; retry_after = 29999 }
unfolding consume get_bucket refill take_token rate_limit_key lookup insert retry_millis
drained_refused = refl

retry_after_enough_example :
    (consume 30000000004 (consume 4 drained "d" "w" 2).1 "d" "w" 2).0.allowed ≡ true
unfolding rate_limit_key lookup
retry_after_enough_example =
    retry_after_enough 4 30000000004 drained "d" "w" 2
      (record bucket { tokens = 6; last_check = 3 }) (omega arith) refl (omega arith) (omega arith)
      (omega arith) (ap (λ (v : Verdict). v.allowed) drained_refused)
      (omega (arith, ap (λ (v : Verdict). v.retry_after) drained_refused))

consume_shared_at :
    consume 5 buckets (text_append "a" (text_append ":" "b")) "c" 2
    ≡ consume 5 buckets "a" (text_append "b" (text_append ":" "c")) 2
consume_shared_at = consume_shared 5 buckets 2 "a" "b" "c"
