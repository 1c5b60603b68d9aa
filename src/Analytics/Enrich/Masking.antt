-- ===== src/Analytics/Enrich/Masking.antt =====
-- What the stored hash of an IP reveals.
use go_link_shortener.Base.{Option, ◌≡◌, refl, none, some, Bytes, length, take, arith}
use go_link_shortener.Analytics.Enrich.{Enricher, to4, mask, mask_v6, anonymize_ip, hash_ip}

mask_v6-network :
    (a b : Bytes) → length a ≡ 16 → length b ≡ 16 → take 6 a ≡ take 6 b → mask_v6 a ≡ mask_v6 b
unfolding mask_v6
mask_v6-network a b la lb same = rw (la, lb, same) refl

hash_ip-v6 :
    (e : Enricher) (raw raw' a b salt : Bytes)
    → e.parse_ip raw ≡ some a
    → e.parse_ip raw' ≡ some b
    → length a ≡ 16
    → length b ≡ 16
    → to4 a ≡ none
    → to4 b ≡ none
    → take 6 a ≡ take 6 b
    → hash_ip e raw salt ≡ hash_ip e raw' salt
unfolding hash_ip anonymize_ip mask
hash_ip-v6 e raw raw' a b salt pa pb la lb va vb same =
    ground (arith, mask_v6-network a b la lb same)

hash_ip-v4 :
    (e : Enricher) (raw raw' a b v w salt : Bytes)
    → e.parse_ip raw ≡ some a
    → e.parse_ip raw' ≡ some b
    → to4 a ≡ some v
    → to4 b ≡ some w
    → take 3 v ≡ take 3 w
    → hash_ip e raw salt ≡ hash_ip e raw' salt
unfolding hash_ip anonymize_ip mask
hash_ip-v4 e raw raw' a b v w salt pa pb va vb same = ground arith

-- two addresses of 16 bytes, with their IPv4 forms, in one network: /24 for IPv4, /48 for IPv6
abbrev pub SameNetwork : Bytes → Bytes → Option Bytes → Option Bytes → Type 0
SameNetwork a b (some v) (some w) = take 3 v ≡ take 3 w
SameNetwork a b none none = (length a ≡ 16) × (length b ≡ 16) × (take 6 a ≡ take 6 b)
SameNetwork a b v w = ⊥

-- Two addresses of one network, IPv4 addresses that differ in the last octet alone or IPv6 addresses
-- with the same first 48 bits, parsed from any text, get the same hash under every salt.
pub hash_ip-SameNetwork :
    (e : Enricher) (raw raw' a b salt : Bytes)
    → e.parse_ip raw ≡ some a
    → e.parse_ip raw' ≡ some b
    → SameNetwork a b (to4 a) (to4 b)
    → hash_ip e raw salt ≡ hash_ip e raw' salt
hash_ip-SameNetwork e raw raw' a b salt pa pb = go (to4 a) (to4 b) refl refl
  where
    go :
        (v w : Option Bytes)
        → to4 a ≡ v
        → to4 b ≡ w
        → SameNetwork a b v w
        → hash_ip e raw salt ≡ hash_ip e raw' salt
    go (some v) (some w) va vb same = hash_ip-v4 e raw raw' a b v w salt pa pb va vb same
    go none none va vb (la, lb, same) = hash_ip-v6 e raw raw' a b salt pa pb la lb va vb same
    go (some v) none va vb no_way = absurd no_way
    go none (some w) va vb no_way = absurd no_way
