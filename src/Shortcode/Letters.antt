-- ===== src/Shortcode/Letters.antt =====
-- The alphabet of internal/shortcode/shortcode.go: no letter is favoured, and every base62 word is
-- the outcome of some random bytes.
use mathlib.Core.List.{map, append_assoc}
use go_link_shortener.Base.{
  length-take, ℕ, zero, suc, ◌+◌, ◌-◌, ◌%◌, ◌≤◌, ◌<◌, ◌≡◌, refl, ap, ◌∙◌, Bool, true, ◌&&◌, ◌||◌,
  not, Option, some, List, [], ◌∷◌, ◌++◌, Bytes, ltb, leb, ◌==◌, ==_iff, arith, length,
  length-append, take, take_all, take-append_full, count, all, if◌then◌else◌,
}
use go_link_shortener.Domain.Errors.{ok}
use go_link_shortener.Shortcode.{
  char_at, alphabet, base, letter, generate, is_alias_char, matches_alias,
}
use go_link_shortener.Shortcode.Sampling.{usable, spelled, pool, generate-take}

abbrev pub bytes_below : ℕ → Bytes
bytes_below zero = []
bytes_below (suc n) = n ∷ bytes_below n

all-bytes_below : (p : ℕ → Bool) (n x : ℕ) → x < n → all p (bytes_below n) ≡ true → p x ≡ true
all-bytes_below p zero x below every = absurd (omega arith)
all-bytes_below p (suc n) x below every = ground (arith, all-bytes_below p n x)

abbrev pub is_base62 : ℕ → Bool
is_base62 c = (leb b'0' c && leb c b'9') || (leb b'A' c && leb c b'Z') || (leb b'a' c && leb c b'z')

-- the byte that spells a letter
abbrev index : ℕ → ℕ
index c = if leb c b'9' then c - b'0' else if leb c b'Z' then c - 55 else c - 61

indexes : ℕ → Bool
indexes c = not (is_base62 c) || (letter (index c) == c && ltb (index c) 62)

index_table : all indexes (bytes_below 123) ≡ true
unfolding indexes letter
index_table = refl

letter-index : (c : ℕ) → is_base62 c ≡ true → (letter (index c) ≡ c) × (index c < 62)
unfolding indexes
letter-index c h =
    let t = all-bytes_below indexes 123 c (ground arith) index_table in
    (ground (arith, ==_iff (letter (index c)) c), ground arith)

letter-mod : (b : ℕ) → letter (b % base) ≡ letter b
unfolding letter
letter-mod b = ap (char_at alphabet) (mod_mod b)
  where
    mod_mod : (x : ℕ) → x % base % base ≡ x % base
    mod_mod x = omega arith

indexed : ℕ → Bool
indexed i = index (letter i) == i

-- how many of the 256 bytes Generate uses and turns into the letter `c`
abbrev pub spellings : ℕ → ℕ
spellings c = count (λ b. usable b && letter b == c) (bytes_below 256)

-- the same, by remainders
abbrev remainders : ℕ → ℕ
remainders i = count (λ b. usable b && b % base == i) (bytes_below 256)

-- `s` spelled out in bytes.
abbrev pub spelling : Bytes → Bytes
spelling s = map index s

spelled-spelling : (s : Bytes) → all is_base62 s ≡ true → spelled (spelling s) ≡ s
spelled-spelling [] h = refl
spelled-spelling (c ∷ s) h = ground (arith, letter-index c, spelled-spelling s)

length-spelling : (s : Bytes) → length (spelling s) ≡ length s
length-spelling [] = refl
length-spelling (c ∷ s) = ap suc (length-spelling s)

spelled-append : (a b : Bytes) → spelled (a ++ b) ≡ spelled a ++ spelled b
spelled-append [] b = refl
spelled-append (c ∷ a) b = ground (arith, spelled-append a b)

spelled_twice :
    (s : Bytes) → all is_base62 s ≡ true → pool 1 (λ _. spelling s ++ spelling s) 0 ≡ s ++ (s ++ [])
spelled_twice s h =
    rw (spelled-append (spelling s) (spelling s), spelled-spelling s h) (append_assoc s s [])

-- Every base62 word is what `Generate` returns for some random buffer, read once. Nothing excludes
-- the reserved words.
pub generate-surjective :
    (s : Bytes)
    → all is_base62 s ≡ true
    → generate 1 (length s) (λ _. some (spelling s ++ spelling s)) ≡ some (ok s)
generate-surjective s h =
    generate-take 1 (length s) _ (λ _. spelling s ++ spelling s) (λ j. refl)
      (omega (arith, ap length (spelled_twice s h), length-append s (s ++ [])))
    ∙ ap (λ o. some (ok o))
        (ap (take (length s)) (spelled_twice s h)
          ∙ take-append_full (length s) s (s ++ []) (omega arith)
          ∙ take_all (length s) s (omega arith))

classed : ℕ → Bool
classed i = is_alias_char (letter i) && is_base62 (letter i)

letter_table : all classed (bytes_below 62) ≡ true
unfolding classed letter is_alias_char
letter_table = refl

letter_lem : (b : ℕ) → (is_alias_char (letter b) ≡ true) × (is_base62 (letter b) ≡ true)
unfolding classed
letter_lem b =
    let t = all-bytes_below classed 62 (b % base) (omega arith) letter_table in
    ground (arith, t, letter-mod b)

spelled-base62 :
    (buf : Bytes) → (all is_alias_char (spelled buf) ≡ true) × (all is_base62 (spelled buf) ≡ true)
spelled-base62 [] = (refl, refl)
spelled-base62 (b ∷ buf) = ground (arith, letter_lem b, spelled-base62 buf)

all-append {ℓ} :
    {A : Type ℓ} (p : A → Bool) (xs ys : List A)
    → all p xs ≡ true
    → all p ys ≡ true
    → all p (xs ++ ys) ≡ true
all-append p [] ys h k = k
all-append p (x ∷ xs) ys h k = ground (arith, all-append p xs ys)

all-take {ℓ} :
    {A : Type ℓ} (p : A → Bool) (n : ℕ) (xs : List A) → all p xs ≡ true → all p (take n xs) ≡ true
all-take p zero xs h = refl
all-take p (suc n) [] h = refl
all-take p (suc n) (x ∷ xs) h = ground (arith, all-take p n xs)

pool-base62 :
    (fuel : ℕ) (bufs : ℕ → Bytes) (k : ℕ)
    → (all is_alias_char (pool fuel bufs k) ≡ true) × (all is_base62 (pool fuel bufs k) ≡ true)
pool-base62 zero bufs k = (refl, refl)
pool-base62 (suc fuel) bufs k =
    let (a, b) = spelled-base62 (bufs k) in
    let (c, d) = pool-base62 fuel bufs (k + 1) in
    (
      all-append is_alias_char (spelled (bufs k)) _ a c,
      all-append is_base62 (spelled (bufs k)) _ b d,
    )

-- What `Generate` returns has the configured length, consists of base62 letters, and, for a length
-- of 3 to 64, has the shape of an alias.
pub generate-matches_alias :
    (fuel n : ℕ) (reads : ℕ → Option Bytes) (bufs : ℕ → Bytes)
    → ((j : ℕ) → reads j ≡ some (bufs j))
    → n ≤ length (pool fuel bufs 0)
    → (s : Bytes) × (generate fuel n reads ≡ some (ok s))
      × (length s ≡ n)
      × (all is_base62 s ≡ true)
      × (matches_alias s ≡ (leb 3 n && leb n 64))
unfolding matches_alias
generate-matches_alias fuel n reads bufs ready enough = (
  take n (pool fuel bufs 0),
  generate-take fuel n reads bufs ready enough,
  cut,
  all-take is_base62 n (pool fuel bufs 0) (pool-base62 fuel bufs 0).1,
  rw (all-take is_alias_char n (pool fuel bufs 0) (pool-base62 fuel bufs 0).0, cut) refl,
)
  where
    cut : length (take n (pool fuel bufs 0)) ≡ n
    cut = omega (arith, length-take n (pool fuel bufs 0), enough)
