-- ===== src/Store/Cache/Reads.antt =====
-- What `Get` of internal/repository/link_cache.go returns after `Set`, `SetNegative` and
-- `Invalidate`: for the written code, and for every other code.
use go_link_shortener.Base.{
  Bool-cases, inl, inr, ℕ, ◌+◌, ◌≡◌, refl, ap, Bool, true, false, Option, none, some, Bytes,
  bytes_eq, bytes_eq_refl, arith, ◌==◌, ltb, if◌then◌else◌,
}
use go_link_shortener.Domain.Errors.{ok}
use go_link_shortener.Domain.Link.{Link}
use go_link_shortener.Store.Cache.{
  fresh, decode, Redis, Slot, write, cache_key, read, get, set, set_negative, invalidate,
}

-- What the cache keeps of a link.
abbrev pub snapshot : Link → Link
snapshot l = record l { created_at = 0; updated_at = 0; deleted_at = none }

-- whether what was written at `t0` is there at `t`
abbrev pub still_there : ℕ → ℕ → ℕ → Bool
still_there ttl t0 t = if ttl == 0 then true else ltb t (t0 + ttl)

cache_key-eq : (a b : Bytes) → bytes_eq (cache_key a) (cache_key b) ≡ bytes_eq a b
unfolding cache_key bytes_eq
cache_key-eq a b = refl

read-write :
    (a b : Bytes) (slot : Option Slot) (redis : Redis) (t : ℕ)
    → bytes_eq a b ≡ true
    → read (write (cache_key b) slot redis) t (cache_key a) ≡ fresh t slot
unfolding read
read-write a b slot redis t h = ground (arith, cache_key-eq a b)

read-write_ne :
    (a b : Bytes) (slot : Option Slot) (redis : Redis) (t : ℕ)
    → bytes_eq a b ≡ false
    → read (write (cache_key b) slot redis) t (cache_key a) ≡ read redis t (cache_key a)
unfolding read
read-write_ne a b slot redis t h = ground (arith, cache_key-eq a b)

-- Set, then Get of its code: the snapshot as long as the entry is there, then a miss.
pub get-set :
    (ttl t0 t : ℕ) (l : Link) (code : Bytes) (redis : Redis)
    → bytes_eq code l.code ≡ true
    → get false t code (set false ttl t0 l redis).1
      ≡ (if still_there ttl t0 t then ok (some (snapshot l), true) else ok (none, false))
unfolding get set
get-set ttl t0 t l code redis h = rw (read-write code l.code _ redis t h) (ground arith)

pub get-set_ne :
    (ttl t0 t : ℕ) (l : Link) (code : Bytes) (redis : Redis)
    → bytes_eq code l.code ≡ false
    → get false t code (set false ttl t0 l redis).1 ≡ get false t code redis
unfolding get set
get-set_ne ttl t0 t l code redis h = ap decode (read-write_ne code l.code _ redis t h)

pub get-set_negative :
    (ttl t0 t : ℕ) (code : Bytes) (redis : Redis)
    → get false t code (set_negative false ttl t0 code redis).1 ≡ ok (none, still_there ttl t0 t)
unfolding get set_negative
get-set_negative ttl t0 t code redis =
    rw (read-write code code _ redis t (bytes_eq_refl code)) (ground arith)

pub get-set_negative_ne :
    (ttl t0 t : ℕ) (code key : Bytes) (redis : Redis)
    → bytes_eq code key ≡ false
    → get false t code (set_negative false ttl t0 key redis).1 ≡ get false t code redis
unfolding get set_negative
get-set_negative_ne ttl t0 t code key redis h = ap decode (read-write_ne code key _ redis t h)

pub get-invalidate :
    (t : ℕ) (code key : Bytes) (redis : Redis)
    → get false t code (invalidate false key redis).1
      ≡ (if bytes_eq code key then ok (none, false) else get false t code redis)
unfolding get invalidate
get-invalidate t code key redis = elim (Bool-cases (bytes_eq code key)) [
  | inl same ↦ rw (read-write code key none redis t same) (ground arith)
  | inr other ↦ rw (read-write_ne code key none redis t other) (ground arith)
]
