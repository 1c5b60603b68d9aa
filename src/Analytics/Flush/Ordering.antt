-- ===== src/Analytics/Flush/Ordering.antt =====
-- `RecordBatch` ranges over a Go map, whose order is unspecified. The model takes the order of first
-- clicks; here is that no order gives another result.
use go_link_shortener.Base.{
  ℕ, ◌+◌, ◌≡◌, refl, ap, sym, ◌∙◌, ==_comm, ==_iff, Bool-cases, inl, inr, Bool, true, false, ◌&&◌,
  ◌||◌, not, none, List, [], ◌∷◌, map, Bytes, bytes_eq, ◌==◌, any, any-append, any-mono_false, find,
  change, arith, if◌then◌else◌,
}
use mathlib.Core.List.{Perm}
use mathlib.Core.Path.{fun_ext}
use go_link_shortener.Domain.Link.{Link, is_exhausted}
use go_link_shortener.Store.Db.{Click, has_id}
use go_link_shortener.Store.Clicks.{tally, counted, exhausted_code, increment}
use go_link_shortener.Store.Counting.{total}
use go_link_shortener.Store.Counting.Keys.{
  has_key, keys_distinct, total-has_key, total-Perm, has_key-Perm, keys_distinct-Perm,
  keys_distinct-tally,
}
use go_link_shortener.Store.Integrity.{IdsDistinct, any-has_id-eq, change-IdsDistinct}
use go_link_shortener.Store.Cache.{Redis, cache_key, invalidate}
use go_link_shortener.Analytics.Flush.{evict_all}

-- the row after all updates
abbrev pub bumped : ℕ → List (ℕ × ℕ) → Link → Link
bumped now counts r = record r {
  click_count = r.click_count + total r.id counts;
  updated_at = if has_key r.id counts then now else r.updated_at;
}

map-bumped_nil : (now : ℕ) (links : List Link) → map (bumped now []) links ≡ links
map-bumped_nil now [] = refl
map-bumped_nil now (r ∷ rs) = ground (arith, map-bumped_nil now rs)

bumped-counted :
    (now id n : ℕ) (rest : List (ℕ × ℕ)) (r : Link)
    → bumped now rest (if r.id == id then counted now n r else r) ≡ bumped now ((id, n) ∷ rest) r
unfolding counted
bumped-counted now id n rest r = elim (Bool-cases (r.id == id)) [
  | inl same ↦ rw same (ground (arith, ==_comm id r.id))
  | inr other ↦ rw other (ground (arith, ==_comm id r.id))
]

increment-bumped :
    (now : ℕ) (counts : List (ℕ × ℕ)) (links : List Link)
    → (increment now counts links).1 ≡ map (bumped now counts) links
unfolding increment
increment-bumped now [] links = sym (map-bumped_nil now links)
increment-bumped now ((id, n) ∷ rest) links =
    increment-bumped now rest (change (has_id id) (counted now n) links) ∙ go links
  where
    go :
        (rs : List Link)
        → map (bumped now rest) (change (has_id id) (counted now n) rs)
          ≡ map (bumped now ((id, n) ∷ rest)) rs
    go [] = refl
    go (r ∷ rs) =
        rw (bumped-counted now id n rest r) (ap (λ t. bumped now ((id, n) ∷ rest) r ∷ t) (go rs))

-- the rows whose code the loop collects
abbrev is_spent : (Bytes → Bool) → ℕ → List (ℕ × ℕ) → Link → Bool
is_spent p now counts r = has_key r.id counts && is_exhausted (bumped now counts r) && p r.code

-- the row of one update
abbrev is_spent_by : (Bytes → Bool) → ℕ → ℕ → ℕ → Link → Bool
is_spent_by p now id n r = r.id == id && is_exhausted (counted now n r) && p r.code

-- One row: it is spent by this update, or by a later one.
is_spent-counted :
    (p : Bytes → Bool) (now id n : ℕ) (rest : List (ℕ × ℕ)) (r : Link)
    → has_key id rest ≡ false
    → is_spent p now ((id, n) ∷ rest) r ≡ (
        is_spent_by p now id n r || is_spent p now rest (if r.id == id then counted now n r else r))
unfolding counted is_exhausted
is_spent-counted p now id n rest r fresh = elim (Bool-cases (r.id == id)) [
  | inl same ↦
      let last = ap (λ i. has_key i rest) ((==_iff r.id id).0 same) ∙ fresh in
      rw same (ground (arith, ==_comm id r.id, total-has_key r.id rest last))
  | inr other ↦ rw other (ground (arith, ==_comm id r.id))
]

any-is_spent :
    (p : Bytes → Bool) (now id n : ℕ) (rest : List (ℕ × ℕ)) (links : List Link)
    → has_key id rest ≡ false
    → any (is_spent p now ((id, n) ∷ rest)) links ≡ (
        any (is_spent_by p now id n) links
        || any (is_spent p now rest) (change (has_id id) (counted now n) links))
any-is_spent p now id n rest [] fresh = refl
any-is_spent p now id n rest (r ∷ rs) fresh =
    ground (arith, is_spent-counted p now id n rest r fresh, any-is_spent p now id n rest rs)

any-exhausted_code :
    (p : Bytes → Bool) (now id n : ℕ) (links : List Link)
    → IdsDistinct links
    → any p (exhausted_code (find (has_id id) (change (has_id id) (counted now n) links)))
      ≡ any (is_spent_by p now id n) links
unfolding exhausted_code counted
any-exhausted_code p now id n [] d = refl
any-exhausted_code p now id n (r ∷ rs) d = elim (Bool-cases (r.id == id)) [
  | inl same ↦
      let alone =
        any-mono_false (has_id id) (is_spent_by p now id n) (λ x spent. ground arith) rs
          (sym (any-has_id-eq r.id id rs same) ∙ d.0) in
      ground arith
  | inr other ↦ ground (arith, any-exhausted_code p now id n rs)
]

-- Whether the loop collects a code that passes a test.
any-increment :
    (p : Bytes → Bool) (now : ℕ) (counts : List (ℕ × ℕ)) (links : List Link)
    → keys_distinct counts ≡ true
    → IdsDistinct links
    → any p (increment now counts links).0 ≡ any (is_spent p now counts) links
unfolding increment
any-increment p now [] links k d = none_spent links
  where
    none_spent : (rs : List Link) → false ≡ any (is_spent p now []) rs
    none_spent [] = refl
    none_spent (r ∷ rs) = none_spent rs
any-increment p now ((id, n) ∷ rest) links k d =
    let links' = change (has_id id) (counted now n) links in
    any-append p (exhausted_code (find (has_id id) links')) (increment now rest links').0
    ∙ rw
        (
          any-exhausted_code p now id n links d,
          any-increment p now rest links' (ground arith)
              (change-IdsDistinct (has_id id) (counted now n) (λ r. refl) links d),
        )
        (sym (any-is_spent p now id n rest links (ground arith)))

evict_all-any :
    (has fault : Bool) (codes : List Bytes) (redis : Redis) (key : Bytes)
    → evict_all has fault codes redis key ≡ (
        if has && not fault && any (λ c. bytes_eq key (cache_key c)) codes then none else redis key)
unfolding evict_all invalidate
evict_all-any has fault [] redis key = ground arith
evict_all-any false fault (c ∷ cs) redis key = evict_all-any false fault cs redis key
evict_all-any true true (c ∷ cs) redis key = evict_all-any true true cs redis key
evict_all-any true false (c ∷ cs) redis key =
    evict_all-any true false cs (invalidate false c redis).1 key ∙ ground arith

map-bumped :
    (now : ℕ) (a b : List (ℕ × ℕ)) (links : List Link)
    → ((id : ℕ) → (total id a ≡ total id b) × (has_key id a ≡ has_key id b))
    → map (bumped now a) links ≡ map (bumped now b) links
map-bumped now a b [] h = refl
map-bumped now a b (r ∷ rs) h =
    rw ((h r.id).0, (h r.id).1) (ap (λ t. bumped now b r ∷ t) (map-bumped now a b rs h))

any-spent_same :
    (p : Bytes → Bool) (now : ℕ) (a b : List (ℕ × ℕ)) (links : List Link)
    → ((id : ℕ) → (total id a ≡ total id b) × (has_key id a ≡ has_key id b))
    → any (is_spent p now a) links ≡ any (is_spent p now b) links
any-spent_same p now a b [] h = refl
any-spent_same p now a b (r ∷ rs) h =
    rw ((h r.id).0, (h r.id).1, any-spent_same p now a b rs h) refl

-- In whatever order the range over the map of counts takes the links of a batch: the rows of the links
-- become the same, and after the evictions the cache is the same.
pub increment-any_order :
    (now : ℕ) (order : List (ℕ × ℕ)) (cs : List Click) (links : List Link) (has fault : Bool)
    (redis : Redis)
    → Perm order (tally [] cs)
    → IdsDistinct links
    → ((increment now order links).1 ≡ (increment now (tally [] cs) links).1)
      × (evict_all has fault (increment now order links).0 redis
          ≡ evict_all has fault (increment now (tally [] cs) links).0 redis)
increment-any_order now order cs links has fault redis p d = (
  increment-bumped now order links
      ∙ map-bumped now order counts links same
      ∙ sym (increment-bumped now counts links),
  fun_ext λ key.
      evict_all-any has fault (increment now order links).0 redis key
      ∙ rw (collected key) (sym (evict_all-any has fault (increment now counts links).0 redis key)),
)
  where
    counts : List (ℕ × ℕ)
    counts = tally [] cs

    distinct : keys_distinct counts ≡ true
    distinct = keys_distinct-tally [] cs refl

    same : (id : ℕ) → (total id order ≡ total id counts) × (has_key id order ≡ has_key id counts)
    same id = (total-Perm id p, has_key-Perm id p)

    collected :
        (key : Bytes)
        → any (λ c. bytes_eq key (cache_key c)) (increment now order links).0
          ≡ any (λ c. bytes_eq key (cache_key c)) (increment now counts links).0
    collected key =
        any-increment (λ c. bytes_eq key (cache_key c)) now order links
          (keys_distinct-Perm p ∙ distinct) d
        ∙ any-spent_same (λ c. bytes_eq key (cache_key c)) now order counts links same
        ∙ sym (any-increment (λ c. bytes_eq key (cache_key c)) now counts links distinct d)
