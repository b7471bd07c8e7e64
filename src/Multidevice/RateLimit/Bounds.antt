-- ===== src/Multidevice/RateLimit/Bounds.antt =====
-- internal/core/multidevice/rate_limit.go: how many requests a bucket lets through.
use Prim.Native.String.{◌++◌ as text_append}
use text.Mathlib.TextLemmas.{append_assoc}
use aps.Base.{
  ◌∙◌, suc, ◌&&◌, ap, Bool-cases, inl, inr, subst, sym, All, ℕ, ◌+◌, ◌-◌, ◌*◌, ◌/◌, ◌≤◌, ◌<◌, ◌≡◌,
  refl, String, Bool, true, false, some, List, [], ◌∷◌, lookup, insert, leb, nat_eq, if◌then◌else◌,
  arith, lookup-insert, eq_iff, eq_refl, ◌==◌,
}
use aps.Multidevice.RateLimit.{
  token_unit, TokenBucket, refill, Buckets, rate_limit_key, get_bucket, unlimited, retry_millis,
  take_token, consume,
}

-- A bucket never holds more than its maximum.
pub record IsWithin (tb : TokenBucket) : Type 0 where
  pub within : tb.tokens ≤ tb.max

refill-IsWithin : (now : ℕ) (tb : TokenBucket) → IsWithin tb → IsWithin (refill now tb)
unfolding refill
refill-IsWithin now tb v = ground arith

take_token-IsWithin : (tb : TokenBucket) → IsWithin tb → IsWithin (take_token tb).1
unfolding take_token
take_token-IsWithin tb v = ground arith

spread : (a b r : ℕ) → a ≤ b → (b - a) * r + a * r ≡ b * r
spread a b r h = omega (arith, ap (λ (x : ℕ). x * r) (split a b h))
  where
    split : (a b : ℕ) → a ≤ b → b ≡ (b - a) + a
    split a b h = omega arith

-- What a refill adds is at most what the time that passed is worth.
refill_budget :
    (now : ℕ) (tb : TokenBucket)
    → ((refill now tb).tokens + tb.last_check * tb.rate
        ≤ tb.tokens + (refill now tb).last_check * tb.rate)
      × ((refill now tb).rate ≡ tb.rate)
      × (tb.last_check ≤ (refill now tb).last_check)
unfolding refill
refill_budget now tb = ground (arith, spread tb.last_check now tb.rate)

refill-last_check :
    (now horizon : ℕ) (tb : TokenBucket)
    → now ≤ horizon
    → tb.last_check ≤ horizon
    → (refill now tb).last_check ≤ horizon
unfolding refill
refill-last_check now horizon tb h k = ground arith

abbrev granted : Bool → ℕ
granted true = token_unit
granted false = 0

-- A request that is allowed costs one token, one that is not costs nothing.
take_budget :
    (tb : TokenBucket)
    → ((take_token tb).1.tokens + granted (take_token tb).0.allowed ≡ tb.tokens)
      × ((take_token tb).1.rate ≡ tb.rate)
      × ((take_token tb).1.last_check ≡ tb.last_check)
unfolding take_token
take_budget tb = ground arith

pub record Request : Type 0 where
  pub now : ℕ
  pub device_id : String
  pub workspace_id : String
  pub limit : ℕ

abbrev key_of : Request → String
key_of r = rate_limit_key r.device_id r.workspace_id

-- The calls of `Consume` in order, and how many of those on one key were allowed.
unfoldable pub serve : String → Buckets → List Request → Buckets × ℕ
serve key buckets [] = (buckets, 0)
serve key buckets (r ∷ rest) =
    let (verdict, next) = consume r.now buckets r.device_id r.workspace_id r.limit in
    let (last, n) = serve key next rest in
    (last, if key_of r == key && verdict.allowed then suc n else n)

-- A request with a limit, made before the horizon.
abbrev pub IsLimited : ℕ → Request → Type 0
IsLimited horizon r = (0 < r.limit) × (r.now ≤ horizon)

-- One call, seen from a key that has a bucket.
record Stepped (horizon : ℕ) (tb tb' : TokenBucket) (cost : ℕ) : Type 0 where
  budget : tb'.tokens + cost + tb.last_check * tb.rate ≤ tb.tokens + tb'.last_check * tb.rate
  same_rate : tb'.rate ≡ tb.rate
  in_time : tb'.last_check ≤ horizon

consume_lem :
    (now : ℕ) (buckets : Buckets) (device_id workspace_id : String) (limit : ℕ)
    → 0 < limit
    → let key = rate_limit_key device_id workspace_id in
      let taken = take_token (refill now (get_bucket now buckets key limit)) in
      consume now buckets device_id workspace_id limit ≡ (taken.0, insert key taken.1 buckets)
unfolding consume
consume_lem now buckets device_id workspace_id limit h = ground arith

get_bucket_found :
    (now : ℕ) (buckets : Buckets) (key : String) (limit : ℕ) {tb : TokenBucket}
    → lookup key buckets ≡ some tb
    → get_bucket now buckets key limit ≡ tb
unfolding get_bucket
get_bucket_found now buckets key limit h = ground arith

take_Stepped :
    (horizon now : ℕ) (tb : TokenBucket)
    → now ≤ horizon
    → tb.last_check ≤ horizon
    → Stepped horizon tb
        (take_token (refill now tb)).1
        (granted (take_token (refill now tb)).0.allowed)
take_Stepped horizon now tb h k =
    ground
      (arith, take_budget (refill now tb), refill_budget now tb, refill-last_check now horizon tb)

-- The call on the key itself.
consume_here :
    (horizon : ℕ) (buckets : Buckets) (r : Request) (tb : TokenBucket)
    → IsLimited horizon r
    → lookup (key_of r) buckets ≡ some tb
    → tb.last_check ≤ horizon
    → let taken = take_token (refill r.now tb) in
      (consume r.now buckets r.device_id r.workspace_id r.limit
        ≡ (taken.0, insert (key_of r) taken.1 buckets))
      × Stepped horizon tb taken.1 (granted taken.0.allowed)
consume_here horizon buckets r tb lim h k = (
  subst
      (λ x. consume r.now buckets r.device_id r.workspace_id r.limit ≡ (
        (take_token (refill r.now x)).0,
        insert (key_of r) (take_token (refill r.now x)).1 buckets,
      ))
      (get_bucket_found r.now buckets (key_of r) r.limit h)
      (consume_lem r.now buckets r.device_id r.workspace_id r.limit lim.0),
  take_Stepped horizon r.now tb lim.1 k,
)

consume_step :
    (horizon : ℕ) (buckets : Buckets) (r : Request) (key : String) (tb : TokenBucket)
    → IsLimited horizon r
    → lookup key buckets ≡ some tb
    → tb.last_check ≤ horizon
    → let out = consume r.now buckets r.device_id r.workspace_id r.limit in
      (tb' : TokenBucket) × (lookup key out.1 ≡ some tb')
      × Stepped horizon tb tb' (granted (key_of r == key && out.0.allowed))
consume_step horizon buckets r key tb lim h k = elim (Bool-cases (key_of r == key)) [
  | inl e ↦
      let same = (eq_iff (key_of r) key).0 e in
      let (did, st) =
        consume_here horizon buckets r tb lim (subst (λ x. lookup x buckets ≡ some tb) (sym same) h)
          k in
      let taken = take_token (refill r.now tb) in
      (taken.1, rw did (rw (lookup-insert (key_of r) key taken.1 buckets) (rw e)), rw did (rw e st))
  | inr e ↦
      let taken = take_token (refill r.now (get_bucket r.now buckets (key_of r) r.limit)) in
      let did = consume_lem r.now buckets r.device_id r.workspace_id r.limit lim.0 in
      (
        tb,
        rw did (rw (lookup-insert (key_of r) key taken.1 buckets) (rw e h)),
        rw e (record { budget = omega arith; same_rate = refl; in_time = k }),
      )
]

add_budget :
    (horizon : ℕ) (tb tb' : TokenBucket) (counted : Bool) (n : ℕ)
    → Stepped horizon tb tb' (granted counted)
    → tb.last_check ≤ horizon
    → n * token_unit ≤ tb'.tokens + (horizon - tb'.last_check) * tb'.rate
    → (if counted then suc n else n) * token_unit ≤ tb.tokens + (horizon - tb.last_check) * tb.rate
add_budget horizon tb tb' true n st k h =
    let h' = rw st.same_rate at h in
    omega (
      arith,
      st.budget,
      spread tb'.last_check horizon tb.rate st.in_time,
      spread tb.last_check horizon tb.rate k,
      h',
    )
add_budget horizon tb tb' false n st k h =
    let h' = rw st.same_rate at h in
    omega (
      arith,
      st.budget,
      spread tb'.last_check horizon tb.rate st.in_time,
      spread tb.last_check horizon tb.rate k,
      h',
    )

-- No more requests get through than the tokens that the bucket of a key held and those gained in the time up to
-- the horizon, whatever requests of this and of other keys are made and in whatever order, as long as
-- each has a limit and comes before the horizon.
pub serve_budget :
    (horizon : ℕ) (key : String) (buckets : Buckets) (requests : List Request) (tb : TokenBucket)
    → All (IsLimited horizon) requests
    → lookup key buckets ≡ some tb
    → tb.last_check ≤ horizon
    → (serve key buckets requests).1 * token_unit ≤ tb.tokens + (horizon - tb.last_check) * tb.rate
unfolding serve
serve_budget horizon key buckets [] tb lim h k = omega arith
serve_budget horizon key buckets (r ∷ rest) tb lim h k =
    let (tb', there, st) = consume_step horizon buckets r key tb lim.0 h k in
    let next = (consume r.now buckets r.device_id r.workspace_id r.limit).1 in
    let ih = serve_budget horizon key next rest tb' lim.1 there st.in_time in
    add_budget horizon tb tb'
      (key_of r == key && (consume r.now buckets r.device_id r.workspace_id r.limit).0.allowed)
      (serve key next rest).1 st k ih

refill-ge :
    (now goal : ℕ) (tb : TokenBucket)
    → tb.last_check ≤ now
    → goal ≤ tb.max
    → goal ≤ tb.tokens + (now - tb.last_check) * tb.rate
    → goal ≤ (refill now tb).tokens
unfolding refill
refill-ge now goal tb past fits enough = elim (Bool-cases (leb now tb.last_check)) [
  | inl e ↦
      let none_passed : now - tb.last_check ≡ 0 = ground (arith, e) in
      rw e (omega (arith, ap (λ (x : ℕ). x * tb.rate) none_passed))
  | inr e ↦ rw e (ground arith)
]

refill-le :
    (now : ℕ) (tb : TokenBucket)
    → tb.last_check ≤ now
    → (refill now tb).tokens ≤ tb.tokens + (now - tb.last_check) * tb.rate
unfolding refill
refill-le now tb past = ground arith

below_next_multiple : (d m : ℕ) → 0 < m → d < (d / m + 1) * m
below_next_multiple d m h = grind arith

retry_covers :
    (tb : TokenBucket)
    → 0 < tb.rate
    → token_unit - tb.tokens < (retry_millis tb + 1) * (1000000 * tb.rate)
unfolding retry_millis
retry_covers tb h = below_next_multiple (token_unit - tb.tokens) (1000000 * tb.rate) (omega arith)

take_allowed : (tb : TokenBucket) → token_unit ≤ tb.tokens → (take_token tb).0.allowed ≡ true
unfolding take_token
take_allowed tb h = ground arith

refill-max : (now : ℕ) (tb : TokenBucket) → (refill now tb).max ≡ tb.max
unfolding refill
refill-max now tb = ground arith

-- A bucket that has waited as long as a refusal from it says, and a millisecond more, holds a token.
refill_enough :
    (now later : ℕ) (tb : TokenBucket)
    → 0 < tb.rate
    → token_unit ≤ tb.max
    → tb.last_check ≤ now
    → now + (retry_millis tb + 1) * 1000000 ≤ later
    → token_unit ≤ (refill later tb).tokens
refill_enough now later tb pos big past waited =
    let q = retry_millis tb in
    let extra = (later - tb.last_check) - (q + 1) * 1000000 in
    let passed : later - tb.last_check ≡ (q + 1) * 1000000 + extra = omega (arith, past, waited) in
    refill-ge later token_unit tb (omega (arith, past, waited)) big
      (omega (arith, retry_covers tb pos, ap (λ (x : ℕ). x * tb.rate) passed))

-- A refused call leaves the refilled bucket, and says how long to wait for it.
consume_refused :
    (now : ℕ) (buckets : Buckets) (device_id workspace_id : String) (limit : ℕ) (tb : TokenBucket)
    → 0 < limit
    → lookup (rate_limit_key device_id workspace_id) buckets ≡ some tb
    → (consume now buckets device_id workspace_id limit).0.allowed ≡ false
    → ((consume now buckets device_id workspace_id limit).0.retry_after
        ≡ retry_millis (refill now tb))
      × ((consume now buckets device_id workspace_id limit).1
          ≡ insert (rate_limit_key device_id workspace_id) (refill now tb) buckets)
unfolding consume get_bucket take_token
consume_refused now buckets device_id workspace_id limit tb pos found refused =
    (ground (arith, pos, found, refused), ground (arith, pos, found, refused))

consume_allowed :
    (later : ℕ) (buckets : Buckets) (device_id workspace_id : String) (limit : ℕ) (tb : TokenBucket)
    → 0 < limit
    → lookup (rate_limit_key device_id workspace_id) buckets ≡ some tb
    → token_unit ≤ (refill later tb).tokens
    → (consume later buckets device_id workspace_id limit).0.allowed ≡ true
unfolding consume get_bucket
consume_allowed later buckets device_id workspace_id limit tb pos found enough =
    ground (arith, pos, found, take_allowed (refill later tb) enough)

-- The wait that a refusal reports, and a millisecond more, is enough: where Consume refuses a device whose bucket gains
-- tokens, can hold one and was not checked at a later time, the next Consume of this device and workspace is
-- allowed if it comes after that wait.
pub retry_after_enough :
    (now later : ℕ) (buckets : Buckets) (device_id workspace_id : String) (limit : ℕ)
    (tb : TokenBucket)
    → 0 < limit
    → lookup (rate_limit_key device_id workspace_id) buckets ≡ some tb
    → 0 < tb.rate
    → token_unit ≤ tb.max
    → tb.last_check ≤ now
    → (consume now buckets device_id workspace_id limit).0.allowed ≡ false
    → now + ((consume now buckets device_id workspace_id limit).0.retry_after + 1) * 1000000 ≤ later
    → (consume later
        (consume now buckets device_id workspace_id limit).1
        device_id
        workspace_id
        limit).0.allowed
      ≡ true
retry_after_enough now later buckets device_id workspace_id limit tb pos found gains big past
      refused waited =
    let key = rate_limit_key device_id workspace_id in
    let left = refill now tb in
    let (wait, stored) =
      consume_refused now buckets device_id workspace_id limit tb pos found refused in
    consume_allowed later (consume now buckets device_id workspace_id limit).1 device_id
      workspace_id limit left pos
      (ap (lookup key) stored ∙ ground (arith, lookup-insert key key left buckets, eq_refl key))
      (refill_enough now later left (rw (refill_budget now tb).1 gains) (rw (refill-max now tb) big)
        (refill-last_check now now tb (omega arith) past)
        (subst (λ (m : ℕ). now + (m + 1) * 1000000 ≤ later) wait waited))

rate_limit_key_joined :
    (a b c : String)
    → rate_limit_key (text_append a (text_append ":" b)) c
      ≡ rate_limit_key a (text_append b (text_append ":" c))
unfolding rate_limit_key
rate_limit_key_joined a b c =
    append_assoc a (text_append ":" b) (text_append ":" c)
    ∙ ap (text_append a) (append_assoc ":" b (text_append ":" c))

-- Two different pairs of a device and a workspace whose names join up to the same text have one bucket:
-- device "a:b" in workspace "c" is served, and charged, as device "a" in workspace "b:c".
pub consume_shared :
    (now : ℕ) (buckets : Buckets) (limit : ℕ) (a b c : String)
    → consume now buckets (text_append a (text_append ":" b)) c limit
      ≡ consume now buckets a (text_append b (text_append ":" c)) limit
unfolding consume
consume_shared now buckets limit a b c =
    ap
      (λ (key : String).
        let out = take_token (refill now (get_bucket now buckets key limit)) in
        if nat_eq limit 0 then (unlimited, buckets) else (out.0, insert key out.1 buckets))
      (rate_limit_key_joined a b c)
