-- ===== src/Shortcode/Sampling.antt =====
-- `Generate` of internal/shortcode/shortcode.go: the rejection sampling, and that it ends.
use mathlib.Core.List.{append-nil, append_assoc, map}
use go_link_shortener.Base.{
  ℕ, zero, suc, ◌+◌, ◌≤◌, ◌<◌, ◌≡◌, ap, sym, ◌∙◌, Bool, not, Option, some, [], ◌∷◌, ◌++◌, Bytes,
  leb, arith, length, length-append, length-take, take, take_all, take-append_full,
  take-take-append, keep,
}
use Prim.Native.Nat.{min}
use native.Mathlib.Decide.{dec_lt}
use go_link_shortener.Domain.Errors.{ok}
use go_link_shortener.Shortcode.{max_unbiased, letter, fill, refill, generate}

abbrev pub usable : ℕ → Bool
usable b = not (leb max_unbiased b)

-- The letters of the usable bytes of one buffer.
abbrev pub spelled : Bytes → Bytes
spelled buf = map letter (keep usable buf)

-- The letters of `fuel` buffers, from number `k` on.
abbrev pub pool : ℕ → (ℕ → Bytes) → ℕ → Bytes
pool zero bufs k = []
pool (suc fuel) bufs k = spelled (bufs k) ++ pool fuel bufs (k + 1)

fill-take :
    (n : ℕ) (out buf : Bytes) → length out < n → fill n out buf ≡ take n (out ++ spelled buf)
unfolding fill
fill-take n out [] h = rw append-nil (sym (take_all n out (omega arith)))
fill-take n out (b ∷ bs) h = ground (
  arith,
  fill-take n out bs,
  fill-take n (out ++ letter b ∷ []) bs,
  length-append out (letter b ∷ []),
  append_assoc out (letter b ∷ []) (spelled bs),
  take-append_full n (out ++ letter b ∷ []) (spelled bs),
  take_all n (out ++ letter b ∷ []),
)

refill-more :
    (fuel n : ℕ) (reads : ℕ → Option Bytes) (k : ℕ) (out buf : Bytes)
    → length out < n
    → reads k ≡ some buf
    → refill (suc fuel) n reads k out ≡ refill fuel n reads (k + 1) (fill n out buf)
unfolding refill
refill-more fuel n reads k out buf short ready = ground arith

refill-full :
    (fuel n : ℕ) (reads : ℕ → Option Bytes) (k : ℕ) (out : Bytes)
    → n ≤ length out
    → refill fuel n reads k out ≡ some (ok out)
unfolding refill
refill-full zero n reads k out h = ground arith
refill-full (suc fuel) n reads k out h = ground arith

length-fill :
    (n : ℕ) (out buf : Bytes)
    → length out < n
    → length (fill n out buf) ≡ min n (length out + length (spelled buf))
length-fill n out buf h = omega (
  arith,
  ap length (fill-take n out buf h),
  length-take n (out ++ spelled buf),
  length-append out (spelled buf),
)

cut-again :
    (n : ℕ) (out buf rest : Bytes)
    → length out < n
    → take n (fill n out buf ++ rest) ≡ take n (out ++ (spelled buf ++ rest))
cut-again n out buf rest h =
    ap (λ o. take n (o ++ rest)) (fill-take n out buf h)
    ∙ take-take-append n (out ++ spelled buf) rest
    ∙ ap (take n) (append_assoc out (spelled buf) rest)

refill-take :
    (fuel n : ℕ) (reads : ℕ → Option Bytes) (bufs : ℕ → Bytes) (k : ℕ) (out : Bytes)
    → ((j : ℕ) → reads j ≡ some (bufs j))
    → length out ≤ n
    → n ≤ length out + length (pool fuel bufs k)
    → refill fuel n reads k out ≡ some (ok (take n (out ++ pool fuel bufs k)))
refill-take zero n reads bufs k out ready short enough =
    refill-full zero n reads k out (omega arith)
    ∙ ap (λ o. some (ok o)) (sym (take_all n out short) ∙ ap (take n) (sym (append-nil out)))
refill-take (suc fuel) n reads bufs k out ready short enough = elim (dec_lt (length out) n) [
  | yes more ↦
      refill-more fuel n reads k out (bufs k) more (ready k)
      ∙ refill-take fuel n reads bufs (k + 1) (fill n out (bufs k)) ready
          (omega (arith, length-fill n out (bufs k) more))
          (omega (
            arith,
            length-fill n out (bufs k) more,
            length-append (spelled (bufs k)) (pool fuel bufs (k + 1)),
            enough,
          ))
      ∙ ap (λ o. some (ok o)) (cut-again n out (bufs k) (pool fuel bufs (k + 1)) more)
  | no full ↦
      refill-full (suc fuel) n reads k out (omega arith)
      ∙ ap (λ o. some (ok o))
          (sym (take_all n out short) ∙ sym (take-append_full n out _ (omega arith)))
]

-- With reads that succeed and at least `n` usable bytes among the first `fuel` buffers, `Generate`
-- ends, with the letters of the first `n` usable bytes.
pub generate-take :
    (fuel n : ℕ) (reads : ℕ → Option Bytes) (bufs : ℕ → Bytes)
    → ((j : ℕ) → reads j ≡ some (bufs j))
    → n ≤ length (pool fuel bufs 0)
    → generate fuel n reads ≡ some (ok (take n (pool fuel bufs 0)))
unfolding generate
generate-take fuel n reads bufs ready enough =
    refill-take fuel n reads bufs 0 [] ready (omega arith) (omega (arith, enough))
