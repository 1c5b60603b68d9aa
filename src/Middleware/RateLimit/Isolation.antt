-- ===== src/Middleware/RateLimit/Isolation.antt =====
-- What the rate limit lets through, and whose bucket it touches.
use go_link_shortener.Base.{ℕ, ◌≡◌, Bool, true, false, Option, ◌==◌, arith}
use go_link_shortener.Store.RateLimit.{allow, sliding_window}
use go_link_shortener.Middleware.RateLimit.{Buckets, LimitHeaders, admitted, answered, rate_limit}

pub rate_limit-allowed :
    (now window limit tenant : ℕ) (buckets : Buckets) (h : Option LimitHeaders)
    → (rate_limit false now window limit tenant buckets).0 ≡ admitted h
    → (sliding_window now window limit (buckets tenant)).0.allowed ≡ true
unfolding rate_limit answered allow
rate_limit-allowed now window limit tenant buckets h e = ground arith

pub rate_limit-others :
    (fault : Bool) (now window limit tenant other : ℕ) (buckets : Buckets)
    → (other == tenant) ≡ false
    → (rate_limit fault now window limit tenant buckets).1 other ≡ buckets other
unfolding rate_limit
rate_limit-others fault now window limit tenant other buckets d = ground arith
