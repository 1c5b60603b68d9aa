-- ===== src/Store/RateLimit/Scores.antt =====
-- The sorted set of one key: what ZREMRANGEBYSCORE and ZADD do to its order, its bounds and its size.
use go_link_shortener.Base.{
  ℕ, suc, ◌+◌, ◌≡◌, ◌≤◌, ◌<◌, refl, Bool, true, ◌&&◌, List, [], ◌∷◌, length, length-keep-le, all,
  leb, not, arith,
}
use go_link_shortener.Store.RateLimit.{trimmed, add_score}

abbrev pub sorted : List ℕ → Bool
sorted [] = true
sorted (s ∷ ss) = all (λ x. leb s x) ss && sorted ss

pub all-trimmed :
    (p : ℕ → Bool) (now window : ℕ) (ss : List ℕ)
    → all p ss ≡ true
    → all p (trimmed now window ss) ≡ true
unfolding trimmed
all-trimmed p now window [] h = refl
all-trimmed p now window (s ∷ ss) h = ground (arith, all-trimmed p now window ss)

pub sorted-trimmed :
    (now window : ℕ) (ss : List ℕ) → sorted ss ≡ true → sorted (trimmed now window ss) ≡ true
unfolding trimmed
sorted-trimmed now window [] h = refl
sorted-trimmed now window (s ∷ ss) h =
    ground (arith, sorted-trimmed now window ss, all-trimmed (λ x. leb s x) now window ss)

pub length-trimmed : (now window : ℕ) (ss : List ℕ) → length (trimmed now window ss) ≤ length ss
unfolding trimmed
length-trimmed now window ss = length-keep-le (λ s. not (leb (s + window) now)) ss

pub all-add_score :
    (p : ℕ → Bool) (now : ℕ) (ss : List ℕ) → all p (add_score now ss) ≡ (p now && all p ss)
unfolding add_score
all-add_score p now [] = refl
all-add_score p now (s ∷ ss) = ground (arith, all-add_score p now ss)

pub all-above :
    (a b : ℕ) (ss : List ℕ) → a ≤ b → all (λ x. leb b x) ss ≡ true → all (λ x. leb a x) ss ≡ true
all-above a b [] le h = refl
all-above a b (s ∷ ss) le h = ground (arith, all-above a b ss)

pub all-below :
    (a b : ℕ) (ss : List ℕ) → a ≤ b → all (λ x. leb x a) ss ≡ true → all (λ x. leb x b) ss ≡ true
all-below a b [] le h = refl
all-below a b (s ∷ ss) le h = ground (arith, all-below a b ss)

pub all-until :
    (now window : ℕ) (ss : List ℕ)
    → all (λ x. leb x now) ss ≡ true
    → all (λ x. leb (x + window) (now + window)) ss ≡ true
all-until now window [] h = refl
all-until now window (s ∷ ss) h = ground (arith, all-until now window ss)

pub sorted-add_score : (now : ℕ) (ss : List ℕ) → sorted ss ≡ true → sorted (add_score now ss) ≡ true
unfolding add_score
sorted-add_score now [] h = refl
sorted-add_score now (s ∷ ss) h =
    ground (arith, sorted-add_score now ss, all-add_score (λ x. leb s x) now ss, all-above now s ss)

pub length-add_score : (now : ℕ) (ss : List ℕ) → length (add_score now ss) ≡ suc (length ss)
unfolding add_score
length-add_score now [] = refl
length-add_score now (s ∷ ss) = ground (arith, length-add_score now ss)

pub all-later :
    (window e e' : ℕ) (scores : List ℕ)
    → e ≤ e'
    → all (λ s. leb (s + window) e) scores ≡ true
    → all (λ s. leb (s + window) e') scores ≡ true
all-later window e e' [] le h = refl
all-later window e e' (s ∷ ss) le h = ground (arith, all-later window e e' ss)

pub trimmed-all :
    (t window : ℕ) (ss : List ℕ)
    → all (λ s. not (leb (s + window) t)) ss ≡ true
    → trimmed t window ss ≡ ss
unfolding trimmed
trimmed-all t window [] h = refl
trimmed-all t window (s ∷ ss) h = ground (arith, trimmed-all t window ss)

pub all-unexpired :
    (oldest t window : ℕ) (ss : List ℕ)
    → all (λ x. leb oldest x) ss ≡ true
    → t < oldest + window
    → all (λ s. not (leb (s + window) t)) ss ≡ true
all-unexpired oldest t window [] h lt = refl
all-unexpired oldest t window (s ∷ ss) h lt = ground (arith, all-unexpired oldest t window ss)

pub trimmed-fresh :
    (now window : ℕ) (ss : List ℕ)
    → all (λ s. not (leb (s + window) now)) (trimmed now window ss) ≡ true
unfolding trimmed
trimmed-fresh now window [] = refl
trimmed-fresh now window (s ∷ ss) = ground (arith, trimmed-fresh now window ss)
