-- ===== src/Store/RateLimit.antt =====
-- internal/repository/ratelimit.go: the Lua script, which Redis runs atomically, on the sorted set of
-- one key. A set is the list of its scores in ascending order, since members are unique; times are in
-- milliseconds, and Redis's clock is the caller's.
pub mod Scores
pub mod Window
pub mod Retry
use go_link_shortener.Base.{
  ℕ, suc, ◌+◌, ◌-◌, Bool, true, false, not, Option, none, some, List, [], ◌∷◌, length, keep, ltb,
  leb, if◌then◌else◌,
}
use go_link_shortener.Domain.Errors.{internal, Result, ok, err}

pub record Bucket : Type 0 where
  pub scores : List ℕ
  pub expires_at : ℕ

abbrev pub empty_bucket : Bucket
empty_bucket = record { scores = []; expires_at = 0 }

-- {allowed, remaining, retryAfterMillis}
pub record Verdict : Type 0 where
  pub allowed : Bool
  pub remaining : ℕ
  pub retry_after : ℕ

-- what is left of the key when the script starts
unfoldable pub present : ℕ → Bucket → List ℕ
present now b = if leb b.expires_at now then [] else b.scores

-- ZREMRANGEBYSCORE key 0 (now - window)
unfoldable pub trimmed : ℕ → ℕ → List ℕ → List ℕ
trimmed now window scores = keep (λ s. not (leb (s + window) now)) scores

-- ZADD
unfoldable pub add_score : ℕ → List ℕ → List ℕ
add_score now [] = now ∷ []
add_score now (s ∷ ss) = let rest = add_score now ss in if ltb s now then s ∷ rest else now ∷ s ∷ ss

unfoldable pub retry_of : ℕ → ℕ → List ℕ → ℕ
retry_of now window [] = window
retry_of now window (oldest ∷ ss) = (oldest + window) - now

unfoldable pub sliding_window : ℕ → ℕ → ℕ → Bucket → Verdict × Bucket
unfolding present trimmed add_score retry_of
sliding_window now window limit b =
    let scores = trimmed now window (present now b) in
    if ltb (length scores) limit
    then (
      record { allowed = true; remaining = limit - length scores - 1; retry_after = 0 },
      record { scores = add_score now scores; expires_at = now + window },
    )
    else (
      record { allowed = false; remaining = 0; retry_after = retry_of now window scores },
      record b { scores = scores },
    )

-- `Allow`: no random member, or Redis fails
unfoldable pub allow : Bool → ℕ → ℕ → ℕ → Bucket → Result Verdict × Bucket
unfolding sliding_window
allow true now window limit b = (err internal, b)
allow false now window limit b = let (v, b') = sliding_window now window limit b in (ok v, b')
