-- ===== src/Shortcode.antt =====
-- internal/shortcode/shortcode.go: the base62 generator and the alias test. Random bytes come from
-- outside: `reads k` is what the k-th call of rand.Read gives, `none` where it fails.
pub mod Sampling
pub mod Letters
use go_link_shortener.Base.{
  ℕ, zero, suc, ◌+◌, ◌*◌, ◌/◌, ◌%◌, Bool, true, false, ◌&&◌, ◌||◌, not, Option, none, some, List,
  [], ◌∷◌, ◌++◌, Bytes, codes, one_of, ltb, leb, ◌==◌, length, all, ℤ, pos, negsuc, if◌then◌else◌,
}
use go_link_shortener.Domain.Errors.{internal, Result, ok, err}

abbrev pub alphabet : Bytes
alphabet = codes "0123456789ABCDEFGHIJKLMNOPQRSTUVWXYZabcdefghijklmnopqrstuvwxyz"

abbrev pub base : ℕ
base = 62

abbrev pub max_unbiased : ℕ
max_unbiased = 256 / 62 * 62

-- NewGenerator: a length below 1 is clamped to 1.
unfoldable pub new_generator : ℤ → ℕ
new_generator (pos zero) = 1
new_generator (pos (suc n)) = suc n
new_generator (negsuc n) = 1

-- alphabet[i]; the index is below 62 wherever it is called
char_at : Bytes → ℕ → ℕ
char_at [] i = 0
char_at (c ∷ cs) zero = c
char_at (c ∷ cs) (suc i) = char_at cs i

unfoldable pub letter : ℕ → ℕ
unfolding char_at
letter b = char_at alphabet (b % base)

-- the loop over one buffer; `out` is what is filled so far
unfoldable pub fill : ℕ → Bytes → Bytes → Bytes
fill n out [] = out
fill n out (b ∷ bs) = elim (leb max_unbiased b) [
  | true ↦ fill n out bs
  | false ↦ elim (length (out ++ letter b ∷ []) == n) [
    | true ↦ out ++ letter b ∷ []
    | false ↦ fill n (out ++ letter b ∷ []) bs
  ]
]

-- the outer loop: `fuel` bounds the reads, and `none` means that more are needed
unfoldable pub refill : ℕ → ℕ → (ℕ → Option Bytes) → ℕ → Bytes → Option (Result Bytes)
unfolding fill
refill zero n reads k out = if ltb (length out) n then none else some (ok out)
refill (suc fuel) n reads k out = elim (ltb (length out) n) [
  | false ↦ some (ok out)
  | true ↦ elim (reads k) [
    | none ↦ some (err internal)
    | some buf ↦ refill fuel n reads (k + 1) (fill n out buf)
  ]
]

unfoldable pub generate : ℕ → ℕ → (ℕ → Option Bytes) → Option (Result Bytes)
unfolding refill
generate fuel n reads = refill fuel n reads 0 []

abbrev pub reserved : List Bytes
reserved =
    codes "api"
    ∷ codes "healthz"
    ∷ codes "readyz"
    ∷ codes "metrics"
    ∷ codes "admin"
    ∷ codes "static"
    ∷ codes "favicon.ico"
    ∷ codes "robots.txt"
    ∷ codes "links"
    ∷ codes "webhooks"
    ∷ codes "settings"
    ∷ codes "assets"
    ∷ codes "going-private"
    ∷ []

unfoldable pub is_reserved : Bytes → Bool
is_reserved s = one_of reserved s

-- [A-Za-z0-9_-]
unfoldable pub is_alias_char : ℕ → Bool
is_alias_char c =
    (leb b'A' c && leb c b'Z')
    || (leb b'a' c && leb c b'z')
    || (leb b'0' c && leb c b'9')
    || c == b'_'
    || c == b'-'

-- ^[A-Za-z0-9_-]{3,64}$
unfoldable pub matches_alias : Bytes → Bool
unfolding is_alias_char
matches_alias s = all is_alias_char s && leb 3 (length s) && leb (length s) 64

unfoldable pub valid_alias : Bytes → Bool
unfolding matches_alias is_reserved
valid_alias s = if not (matches_alias s) then false else not (is_reserved s)
