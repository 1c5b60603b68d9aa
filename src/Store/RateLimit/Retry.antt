-- ===== src/Store/RateLimit/Retry.antt =====
-- How long a refused client has to wait.
use go_link_shortener.Store.RateLimit.Scores.{
  sorted, all-trimmed, sorted-trimmed, length-trimmed, all-add_score, all-below, all-until,
  sorted-add_score, length-add_score, trimmed-all, all-unexpired, trimmed-fresh,
}
use go_link_shortener.Base.{
  ℕ, ◌+◌, ◌≡◌, ◌≤◌, ◌<◌, refl, true, false, List, [], ◌∷◌, ◌++◌, length, all, ltb, leb, not, arith,
  Bool-cases, inl, inr,
}
use go_link_shortener.Store.RateLimit.{
  Bucket, empty_bucket, present, trimmed, retry_of, sliding_window,
}
use go_link_shortener.Store.RateLimit.Window.{replay, Ascending}

-- the set of one key at time `now`
pub record IsKept (window limit now : ℕ) (b : Bucket) : Type 0 where
  pub ordered : sorted b.scores ≡ true
  pub past : all (λ s. leb s now) b.scores ≡ true
  pub until : all (λ s. leb (s + window) b.expires_at) b.scores ≡ true
  pub fits : length b.scores ≤ limit

module _ (window limit now0 now : ℕ) (later : now0 ≤ now) (b : Bucket)
    (h : IsKept window limit now0 b) where
  abbrev kept : List ℕ
  kept = trimmed now window (present now b)

  present-kept :
      (sorted (present now b) ≡ true)
      × (all (λ s. leb s now) (present now b) ≡ true)
      × (all (λ s. leb (s + window) b.expires_at) (present now b) ≡ true)
      × (length (present now b) ≤ limit)
  unfolding present
  present-kept =
      let past = all-below now0 now b.scores later h.past in
      ground (arith, h.ordered, h.until, h.fits)

  kept-IsKept : IsKept window limit now (record b { scores = kept })
  kept-IsKept =
      let (ordered, past, until, fits) = present-kept in
      record {
        ordered = sorted-trimmed now window (present now b) ordered;
        past = all-trimmed (λ s. leb s now) now window (present now b) past;
        until = all-trimmed (λ s. leb (s + window) b.expires_at) now window (present now b) until;
        fits = omega (arith, length-trimmed now window (present now b));
      }

  sliding_window-IsKept : IsKept window limit now (sliding_window now window limit b).1
  unfolding sliding_window
  sliding_window-IsKept = elim (Bool-cases (ltb (length kept) limit)) [
    | inl free ↦ rw free (record {
      ordered = sorted-add_score now kept kept-IsKept.ordered;
      past = ground (arith, all-add_score (λ s. leb s now) now kept, kept-IsKept.past);
      until = ground (
        arith,
        all-add_score (λ s. leb (s + window) (now + window)) now kept,
        all-until now window kept,
        kept-IsKept.past,
      );
      fits = ground (arith, length-add_score now kept);
    })
    | inr full ↦ rw full kept-IsKept
  ]

replay-IsKept :
    (window limit now0 now : ℕ) (ts : List ℕ) (b : Bucket) (log : List ℕ)
    → Ascending now0 (ts ++ (now ∷ []))
    → IsKept window limit now0 b
    → IsKept window limit now (replay window limit ts (b, log)).0
unfolding replay Ascending
replay-IsKept window limit now0 now [] b log (later, up) h = record {
  ordered = h.ordered;
  past = all-below now0 now b.scores later h.past;
  until = h.until;
  fits = h.fits;
}
replay-IsKept window limit now0 now (t ∷ ts) b log (later, up) h =
    replay-IsKept window limit t now ts (sliding_window t window limit b).1 _ up
      (sliding_window-IsKept window limit now0 t later b h)

-- the set after requests at the given times
abbrev pub bucket_after : ℕ → ℕ → List ℕ → Bucket
bucket_after window limit ts = (replay window limit ts (empty_bucket, [])).0

-- A full set lets the next request in exactly when its oldest member leaves.
module _ (window limit t : ℕ) (oldest : ℕ) (ss : List ℕ) (expiry : ℕ)
    (ordered : sorted (oldest ∷ ss) ≡ true)
    (until : all (λ s. leb (s + window) expiry) (oldest ∷ ss) ≡ true)
    (full : length (oldest ∷ ss) ≡ limit) where
  abbrev set : Bucket
  set = record { scores = oldest ∷ ss; expires_at = expiry }

  left-length : oldest + window ≤ t → length (trimmed t window (present t set)) < limit
  unfolding present trimmed
  left-length gone = ground (arith, length-trimmed t window ss)

  stays-length : t < oldest + window → length (trimmed t window (present t set)) ≡ limit
  unfolding present
  stays-length there =
      ground
        (arith, trimmed-all t window (oldest ∷ ss), all-unexpired oldest t window (oldest ∷ ss))

  full-allowed : (sliding_window t window limit set).0.allowed ≡ leb (oldest + window) t
  unfolding sliding_window
  full-allowed = elim (Bool-cases (leb (oldest + window) t)) [
    | inl gone ↦ ground (arith, left-length)
    | inr there ↦ ground (arith, stays-length)
  ]

module _ (window limit now : ℕ) (b : Bucket) where
  refused-allowed :
      (scores : List ℕ) (t : ℕ)
      → 0 < limit
      → IsKept window limit now (record b { scores = scores })
      → limit ≤ length scores
      → all (λ s. not (leb (s + window) now)) scores ≡ true
      → (0 < retry_of now window scores)
        × ((sliding_window t window limit (record b { scores = scores })).0.allowed
            ≡ leb (now + retry_of now window scores) t)
  unfolding retry_of
  refused-allowed [] t some_limit h full fresh = absurd (omega arith)
  refused-allowed (oldest ∷ ss) t some_limit h full fresh =
      let exact =
        full-allowed window limit t oldest ss b.expires_at h.ordered h.until
          (omega (arith, h.fits)) in
      (ground arith, ground arith)

refused-verdict :
    (window limit now : ℕ) (b : Bucket)
    → (sliding_window now window limit b).0.allowed ≡ false
    → (limit ≤ length (trimmed now window (present now b)))
      × (sliding_window now window limit b ≡ (
        record {
          allowed = false;
          remaining = 0;
          retry_after = retry_of now window (trimmed now window (present now b));
        },
        record b { scores = trimmed now window (present now b) },
      ))
unfolding sliding_window
refused-verdict window limit now b denied = (ground arith, ground arith)

-- After any requests on a key, at times that do not go back, and a limit above 0: a refused request is
-- told a wait above 0, and if no other request comes in between, the next one is let in exactly when
-- that wait is over, and refused before.
pub retry_after-exact :
    (window limit : ℕ) (ts : List ℕ) (now later : ℕ)
    → Ascending 0 (ts ++ (now ∷ []))
    → 0 < limit
    → (sliding_window now window limit (bucket_after window limit ts)).0.allowed ≡ false
    → (0 < (sliding_window now window limit (bucket_after window limit ts)).0.retry_after)
      × ((sliding_window later window limit
            (sliding_window now window limit (bucket_after window limit ts)).1).0.allowed
          ≡ leb
              (now + (sliding_window now window limit (bucket_after window limit ts)).0.retry_after)
              later)
retry_after-exact window limit ts now later up some_limit refused =
    go
      (replay-IsKept window limit 0 now ts empty_bucket [] up
        (record { ordered = refl; past = refl; until = refl; fits = omega arith }))
      refused
  where
    b : Bucket
    b = bucket_after window limit ts

    go :
        IsKept window limit now b
        → (sliding_window now window limit b).0.allowed ≡ false
        → (0 < (sliding_window now window limit b).0.retry_after)
          × ((sliding_window later window limit (sliding_window now window limit b).1).0.allowed
              ≡ leb (now + (sliding_window now window limit b).0.retry_after) later)
    go h denied =
        let (short, verdict) = refused-verdict window limit now b denied in
        rw verdict (
          refused-allowed window limit now b (trimmed now window (present now b)) later some_limit
            (kept-IsKept window limit now now (omega arith) b h) short
            (trimmed-fresh now window (present now b)))
