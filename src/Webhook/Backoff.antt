-- ===== src/Webhook/Backoff.antt =====
-- `backoff` of internal/webhook/dispatcher.go. `base` is the 64-bit pattern of the base delay, and
-- `rand` is `rand.Int64N`, which panics on a bound that is not positive: then there is no delay.
use go_link_shortener.Base.{
  ℕ, suc, ◌+◌, ◌*◌, ◌/◌, ◌%◌, ◌^◌, ◌≤◌, ◌<◌, ◌≡◌, refl, ◌||◌, Option, none, some, ◌==◌, ltb, leb, ℤ,
  pos, negsuc, ltb_ℤ, if◌then◌else◌, arith, Bool-cases, inl, inr, ap, ◌∙◌,
}

-- 2 ^ 64 and 2 ^ 63
abbrev pub word : ℕ
word = 18446744073709551616

abbrev pub half_word : ℕ
half_word = 9223372036854775808

unfoldable pub shifted : ℕ → ℕ → ℕ
shifted base attempt = (base * 2 ^ attempt) % word

unfoldable pub capped : ℕ → ℤ → ℕ → ℤ
unfolding shifted
capped base max_backoff attempt =
    let delay = shifted base attempt in
    if delay == 0 || leb half_word delay || ltb_ℤ max_backoff (pos delay)
    then max_backoff
    else pos delay

-- half + rand.Int64N(half + 1), where Go's division truncates towards zero
jitter : (ℕ → ℕ) → ℤ → Option ℕ
jitter rand (pos delay) = some (delay / 2 + rand (suc (delay / 2)))
jitter rand (negsuc n) = if n == 0 then some (rand 1) else none

unfoldable pub backoff : (ℕ → ℕ) → ℕ → ℤ → ℕ → Option ℕ
unfolding jitter capped
backoff rand base max_backoff attempt = jitter rand (capped base max_backoff attempt)

-- A shift that has no effect on the sign, and the exponential delay below the cap.
capped-exact :
    (base m attempt : ℕ)
    → base * 2 ^ attempt < half_word
    → 0 < base * 2 ^ attempt
    → capped base (pos m) attempt
      ≡ pos (if ltb m (base * 2 ^ attempt) then m else base * 2 ^ attempt)
unfolding capped shifted
capped-exact base m attempt small some_delay = go (base * 2 ^ attempt) small some_delay
  where
    go :
        (d : ℕ)
        → d < half_word
        → 0 < d
        → (if d % word == 0 || leb half_word (d % word) || ltb_ℤ (pos m) (pos (d % word))
            then pos m
            else pos (d % word))
          ≡ pos (if ltb m d then m else d)
    go d small some_delay = ground arith

jitter-range :
    (rand : ℕ → ℕ) (d : ℕ)
    → ((n : ℕ) → rand (suc n) < suc n)
    → (r : ℕ) × (jitter rand (pos d) ≡ some r) × (d / 2 ≤ r) × (r ≤ d)
unfolding jitter
jitter-range rand d fair =
    (d / 2 + rand (suc (d / 2)), refl, omega arith, omega (arith, fair (d / 2)))

capped-cap : (base m attempt : ℕ) → (d : ℕ) × (capped base (pos m) attempt ≡ pos d) × (d ≤ m)
unfolding capped
capped-cap base m attempt = go (shifted base attempt)
  where
    go :
        (d : ℕ)
        → (x : ℕ) × ((if d == 0 || leb half_word d || ltb_ℤ (pos m) (pos d) then pos m else pos d)
            ≡ pos x)
          × (x ≤ m)
    go d = elim (Bool-cases (d == 0 || leb half_word d || ltb_ℤ (pos m) (pos d))) [
      | inl capping ↦ (m, rw capping refl, omega arith)
      | inr free ↦ (d, rw free refl, ground arith)
    ]

-- With a cap that is not negative, the delay before a retry always exists and never exceeds the cap,
-- whatever the base, the attempt and the overflow of the shift.
pub backoff-cap :
    (rand : ℕ → ℕ) (base m attempt : ℕ)
    → ((n : ℕ) → rand (suc n) < suc n)
    → (r : ℕ) × (backoff rand base (pos m) attempt ≡ some r) × (r ≤ m)
unfolding backoff
backoff-cap rand base m attempt fair =
    let (d, cap, below) = capped-cap base m attempt in
    let (r, delay, low, high) = jitter-range rand d fair in
    (r, ap (jitter rand) cap ∙ delay, omega (arith, below, high))

-- While the shift does not overflow, the delay before retry `attempt` lies between half of the
-- exponential delay, capped, and all of it.
pub backoff-range :
    (rand : ℕ → ℕ) (base m attempt : ℕ)
    → ((n : ℕ) → rand (suc n) < suc n)
    → base * 2 ^ attempt < half_word
    → 0 < base * 2 ^ attempt
    → (r : ℕ) × (backoff rand base (pos m) attempt ≡ some r)
      × ((if ltb m (base * 2 ^ attempt) then m else base * 2 ^ attempt) / 2 ≤ r)
      × (r ≤ (if ltb m (base * 2 ^ attempt) then m else base * 2 ^ attempt))
unfolding backoff
backoff-range rand base m attempt fair small some_delay =
    rw (capped-exact base m attempt small some_delay)
      (jitter-range rand (if ltb m (base * 2 ^ attempt) then m else base * 2 ^ attempt) fair)
