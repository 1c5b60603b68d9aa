-- ===== src/Middleware/RateLimit.antt =====
-- internal/middleware/ratelimit.go. The buckets of Redis are a function of the tenant, since the key
-- is the tenant's id.
pub mod Isolation
pub mod Waiting
use go_link_shortener.Base.{
  ℕ, ◌/◌, Bool, true, false, not, Option, none, some, codes, ◌==◌, ltb, if◌then◌else◌,
}
use go_link_shortener.Domain.Errors.{Result, ok, err}
use go_link_shortener.Store.RateLimit.{Bucket, Verdict, allow}
use go_link_shortener.Http.{Reply, failed, code_rate_limited}

abbrev pub Buckets : Type 0
Buckets = ℕ → Bucket

abbrev pub store_bucket : ℕ → Bucket → Buckets → Buckets
store_bucket tenant b buckets t = if t == tenant then b else buckets t

-- X-RateLimit-Limit and X-RateLimit-Remaining, and Retry-After
pub record LimitHeaders : Type 0 where
  pub limit : ℕ
  pub remaining : ℕ
  pub retry_after : Option ℕ

-- `err` fails open, without headers
pub data Admission : Type 0 where
  admitted : Option LimitHeaders → Admission
  rejected : LimitHeaders → Reply → Admission

-- whole seconds, at least 1; `ms` is in milliseconds
unfoldable pub retry_seconds : ℕ → ℕ
retry_seconds ms = let s = ms / 1000 in if ltb s 1 then 1 else s

answered : ℕ → Result Verdict → Admission
unfolding retry_seconds
answered limit (err e) = admitted none
answered limit (ok v) =
    if not v.allowed
    then rejected
        (record {
          limit = limit;
          remaining = v.remaining;
          retry_after = some (retry_seconds v.retry_after);
        })
        (failed 429 code_rate_limited (codes "rate limit exceeded"))
    else admitted (some (record { limit = limit; remaining = v.remaining; retry_after = none }))

unfoldable pub rate_limit : Bool → ℕ → ℕ → ℕ → ℕ → Buckets → Admission × Buckets
unfolding answered allow
rate_limit fault now window limit tenant buckets =
    let (v, b) = allow fault now window limit (buckets tenant) in
    (answered limit v, store_bucket tenant b buckets)
