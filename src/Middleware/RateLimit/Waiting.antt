-- ===== src/Middleware/RateLimit/Waiting.antt =====
-- What a client meets that waits for the seconds of Retry-After.
use go_link_shortener.Base.{
  ℕ, ◌+◌, ◌*◌, ◌%◌, ◌≡◌, ◌<◌, ◌∙◌, Bool, true, false, not, ◌&&◌, List, [], ◌∷◌, ◌++◌, leb, ◌==◌,
  arith,
}
use go_link_shortener.Domain.Errors.{ok}
use go_link_shortener.Store.RateLimit.{sliding_window, allow, Verdict}
use go_link_shortener.Store.RateLimit.Window.{Ascending}
use go_link_shortener.Store.RateLimit.Retry.{bucket_after, retry_after-exact}
use go_link_shortener.Middleware.RateLimit.{
  Buckets, Admission, admitted, rejected, answered, retry_seconds, rate_limit,
}

abbrev pub is_rejected : Admission → Bool
is_rejected (admitted h) = false
is_rejected (rejected h reply) = true

is_rejected-answered :
    (limit : ℕ) (v : Verdict) → is_rejected (answered limit (ok v)) ≡ not v.allowed
unfolding answered
is_rejected-answered limit v = ground arith

is_rejected-rate_limit :
    (now window limit tenant : ℕ) (buckets : Buckets)
    → is_rejected (rate_limit false now window limit tenant buckets).0
      ≡ not (sliding_window now window limit (buckets tenant)).0.allowed
unfolding rate_limit allow
is_rejected-rate_limit now window limit tenant buckets =
    is_rejected-answered limit (sliding_window now window limit (buckets tenant)).0

rate_limit-bucket :
    (now window limit tenant : ℕ) (buckets : Buckets)
    → (rate_limit false now window limit tenant buckets).1 tenant
      ≡ (sliding_window now window limit (buckets tenant)).1
unfolding rate_limit allow
rate_limit-bucket now window limit tenant buckets = ground arith

retry_seconds-short :
    (r : ℕ) → 0 < r → not (leb r (1000 * retry_seconds r)) ≡ (leb 1000 r && not (r % 1000 == 0))
unfolding retry_seconds
retry_seconds-short r some_wait = ground arith

-- After any requests of a tenant, at times that do not go back, with a limit above 0, and when a
-- request is refused: a client that repeats it after exactly the seconds of Retry-After is refused
-- again if the wait in milliseconds is above a second and not a whole number of seconds, and only then.
pub rate_limit-early :
    (window limit : ℕ) (ts : List ℕ) (now tenant wait : ℕ) (buckets : Buckets)
    → Ascending 0 (ts ++ (now ∷ []))
    → 0 < limit
    → buckets tenant ≡ bucket_after window limit ts
    → is_rejected (rate_limit false now window limit tenant buckets).0 ≡ true
    → (sliding_window now window limit (buckets tenant)).0.retry_after ≡ wait
    → is_rejected
        (rate_limit false
          (now + 1000 * retry_seconds wait)
          window
          limit
          tenant
          (rate_limit false now window limit tenant buckets).1).0
      ≡ (leb 1000 wait && not (wait % 1000 == 0))
rate_limit-early window limit ts now tenant wait buckets up some_limit same refused told =
    let later = now + 1000 * retry_seconds wait in
    let denied = is_rejected-rate_limit now window limit tenant buckets in
    let (some_wait, exact) =
      retry_after-exact window limit ts now later up some_limit (ground (arith, denied)) in
    is_rejected-rate_limit later window limit tenant
      (rate_limit false now window limit tenant buckets).1
    ∙ rw (rate_limit-bucket now window limit tenant buckets, same, exact)
        (ground (arith, retry_seconds-short wait))
