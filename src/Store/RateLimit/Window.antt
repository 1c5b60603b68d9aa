-- ===== src/Store/RateLimit/Window.antt =====
-- No window of time admits more than the limit.
use go_link_shortener.Store.RateLimit.Scores.{all-trimmed, all-add_score, all-later}
use go_link_shortener.Base.{
  sym, subst, ℕ, ◌+◌, ◌≡◌, ◌≤◌, ◌<◌, refl, Bool, true, false, ◌&&◌, List, [], ◌∷◌, length, count,
  all, ltb, leb, if◌then◌else◌, arith, Bool-cases, inl, inr,
}
use go_link_shortener.Store.RateLimit.{
  Bucket, empty_bucket, present, trimmed, add_score, sliding_window,
}

-- the requests at the given times, and the times of those that were allowed, newest first
unfoldable pub replay : ℕ → ℕ → List ℕ → Bucket × List ℕ → Bucket × List ℕ
unfolding sliding_window
replay window limit [] s = s
replay window limit (now ∷ ts) (b, log) =
    let (v, b') = sliding_window now window limit b in
    replay window limit ts (b', if v.allowed then now ∷ log else log)

-- the clock does not go back
unfoldable pub Ascending : ℕ → List ℕ → Type 0
Ascending t [] = Unit
Ascending t (now ∷ ts) = (t ≤ now) × Ascending now ts

abbrev pub after : ℕ → ℕ → Bool
after t s = ltb t s

abbrev pub within : ℕ → ℕ → ℕ → Bool
within t window s = ltb t s && leb s (t + window)

count-trimmed :
    (now window t : ℕ) (scores : List ℕ)
    → now ≤ t + window
    → count (after t) (trimmed now window scores) ≡ count (after t) scores
unfolding trimmed
count-trimmed now window t [] h = refl
count-trimmed now window t (s ∷ ss) h = ground (arith, count-trimmed now window t ss)

count-add_score :
    (now t : ℕ) (scores : List ℕ)
    → count (after t) (add_score now scores) ≡ (if ltb t now then 1 else 0) + count (after t) scores
unfolding add_score
count-add_score now t [] = refl
count-add_score now t (s ∷ ss) = ground (arith, count-add_score now t ss)

count_none :
    (t window e : ℕ) (scores : List ℕ)
    → all (λ s. leb (s + window) e) scores ≡ true
    → e ≤ t + window
    → count (after t) scores ≡ 0
count_none t window e [] h k = refl
count_none t window e (s ∷ ss) h k = ground (arith, count_none t window e ss)

count-present :
    (now window t : ℕ) (b : Bucket)
    → all (λ s. leb (s + window) b.expires_at) b.scores ≡ true
    → now ≤ t + window
    → count (after t) (present now b) ≡ count (after t) b.scores
unfolding present
count-present now window t b h k = elim (Bool-cases (leb b.expires_at now)) [
  | inl gone ↦ ground (arith, count_none t window b.expires_at b.scores)
  | inr there ↦ ground arith
]

count-le-length : (t : ℕ) (scores : List ℕ) → count (after t) scores ≤ length scores
count-le-length t [] = omega arith
count-le-length t (s ∷ ss) = ground (arith, count-le-length t ss)

count-within : (t window : ℕ) (xs : List ℕ) → count (within t window) xs ≤ count (after t) xs
count-within t window [] = omega arith
count-within t window (x ∷ xs) = ground (arith, count-within t window xs)

all-present :
    (now window : ℕ) (b : Bucket)
    → all (λ s. leb (s + window) b.expires_at) b.scores ≡ true
    → all (λ s. leb (s + window) b.expires_at) (present now b) ≡ true
unfolding present
all-present now window b h = ground arith

-- At time `now`, the set knows of every request allowed in the window before.
pub record IsTracking (window limit now : ℕ) (b : Bucket) (log : List ℕ) : Type 0 where
  pub bounded : all (λ s. leb (s + window) b.expires_at) b.scores ≡ true
  pub expiry : b.expires_at ≤ now + window
  pub tracks : (t : ℕ) → now ≤ t + window → count (after t) b.scores ≡ count (after t) log
  pub limited : (t : ℕ) → count (within t window) log ≤ limit

module _ (window limit now0 now : ℕ) (later : now0 ≤ now) (b : Bucket) (log : List ℕ)
    (h : IsTracking window limit now0 b log) where
  kept_count :
      (t : ℕ)
      → now ≤ t + window
      → count (after t) (trimmed now window (present now b)) ≡ count (after t) log
  kept_count t le = omega (
    arith,
    count-trimmed now window t (present now b) le,
    count-present now window t b h.bounded le,
    h.tracks t (omega arith),
  )

  kept_bound : all (λ s. leb (s + window) b.expires_at) (trimmed now window (present now b)) ≡ true
  kept_bound =
      all-trimmed (λ s. leb (s + window) b.expires_at) now window (present now b)
        (all-present now window b h.bounded)

  allowed-IsTracking :
      length (trimmed now window (present now b)) < limit
      → IsTracking window limit now
          (record {
            scores = add_score now (trimmed now window (present now b));
            expires_at = now + window;
          })
          (now ∷ log)
  allowed-IsTracking free = record {
    bounded = ground (
      arith,
      all-add_score (λ s. leb (s + window) (now + window)) now (trimmed now window (present now b)),
      all-later window b.expires_at (now + window) (trimmed now window (present now b))
          (omega (arith, h.expiry)) kept_bound,
    );
    expiry = omega arith;
    tracks = λ t le.
        omega (arith, count-add_score now t (trimmed now window (present now b)), kept_count t le);
    limited = λ t. elim (Bool-cases (within t window now)) [
      | inl inside ↦ ground (
        arith,
        kept_count t,
        count-within t window log,
        count-le-length t (trimmed now window (present now b)),
      )
      | inr outside ↦ ground (arith, h.limited t)
    ];
  }

  denied-IsTracking :
      IsTracking window limit now (record b { scores = trimmed now window (present now b) }) log
  denied-IsTracking = record {
    bounded = kept_bound;
    expiry = omega (arith, h.expiry);
    tracks = kept_count;
    limited = h.limited;
  }

abbrev slid : ℕ → ℕ → ℕ → Bucket → Bucket
slid window limit now b = record {
  scores = add_score now (trimmed now window (present now b));
  expires_at = now + window;
}

replay-allowed :
    (window limit now : ℕ) (ts : List ℕ) (b : Bucket) (log : List ℕ)
    → ltb (length (trimmed now window (present now b))) limit ≡ true
    → replay window limit (now ∷ ts) (b, log)
      ≡ replay window limit ts (slid window limit now b, now ∷ log)
unfolding replay sliding_window
replay-allowed window limit now ts b log free = rw free refl

replay-denied :
    (window limit now : ℕ) (ts : List ℕ) (b : Bucket) (log : List ℕ)
    → ltb (length (trimmed now window (present now b))) limit ≡ false
    → replay window limit (now ∷ ts) (b, log)
      ≡ replay window limit ts (record b { scores = trimmed now window (present now b) }, log)
unfolding replay sliding_window
replay-denied window limit now ts b log full = rw full refl

replay-IsTracking :
    (window limit now0 : ℕ) (ts : List ℕ) (b : Bucket) (log : List ℕ)
    → Ascending now0 ts
    → IsTracking window limit now0 b log
    → (t : ℕ) → count (within t window) (replay window limit ts (b, log)).1 ≤ limit
unfolding replay Ascending
replay-IsTracking window limit now0 [] b log up h t = h.limited t
replay-IsTracking window limit now0 (now ∷ ts) b log (le, up) h t =
    elim (Bool-cases (ltb (length (trimmed now window (present now b))) limit)) [
      | inl free ↦
          subst (λ p. count (within t window) p.1 ≤ limit)
            (sym (replay-allowed window limit now ts b log free))
            (replay-IsTracking window limit now ts _ _ up
              (allowed-IsTracking window limit now0 now le b log h (ground arith)) t)
      | inr full ↦
          subst (λ p. count (within t window) p.1 ≤ limit)
            (sym (replay-denied window limit now ts b log full))
            (replay-IsTracking window limit now ts _ _ up
              (denied-IsTracking window limit now0 now le b log h) t)
    ]

-- Of any requests on one key, at times that do not go back, at most `limit` are allowed in any stretch
-- of time of the window's length, wherever it begins.
pub replay-limit :
    (window limit : ℕ) (ts : List ℕ) (t : ℕ)
    → Ascending 0 ts
    → count (within t window) (replay window limit ts (empty_bucket, [])).1 ≤ limit
replay-limit window limit ts t up =
    replay-IsTracking window limit 0 ts empty_bucket [] up
      (record {
        bounded = refl;
        expiry = omega arith;
        tracks = λ u le. refl;
        limited = λ u. omega arith;
      })
      t
