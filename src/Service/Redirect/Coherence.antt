-- ===== src/Service/Redirect/Coherence.antt =====
-- `Resolve` keeps the cache coherent with the database, whatever fails.
use go_link_shortener.Base.{
  subst, ℕ, ◌≡◌, refl, ap, sym, ◌∙◌, Bool, true, false, Option, none, some, Bytes, bytes_eq,
  bytes_eq_iff, find-holds, arith, if◌then◌else◌, inl, inr, Bool-cases,
}
use go_link_shortener.Domain.Errors.{not_found, Result, ok, err}
use go_link_shortener.Domain.Link.{Link, is_exhausted}
use go_link_shortener.Store.Db.{Db, is_live, has_live_code}
use go_link_shortener.Store.Links.{get_by_code}
use go_link_shortener.Store.Cache
use go_link_shortener.Store.Cache.Reads.{
  snapshot, still_there, get-set, get-set_ne, get-set_negative, get-set_negative_ne,
}
use go_link_shortener.Service.World.{World}
use go_link_shortener.Service.Redirect.{
  observe_miss, CacheTtls, Faults, resolve, from_db, backfill, answer,
}
use go_link_shortener.Service.Redirect.Agreement.{live_row, Mirrors, IsCoherent}

-- A live row is mirrored by its own snapshot.
snapshot-Mirrors : (code : Bytes) (l : Link) → has_live_code code l ≡ true → Mirrors (snapshot l) l
unfolding is_live is_exhausted
snapshot-Mirrors code l h = record {
  same = refl;
  expiry = refl;
  exhausted = refl;
  kept = refl;
  live = ground arith;
}

abbrev miss : Result (Option Link × Bool)
miss = ok (none, false)

entry-eq :
    (b : Bool) {s l : Link} → (if b then ok (some l, true) else miss) ≡ ok (some s, true) → l ≡ s
entry-eq b h = ground arith

live_row-eq : (a b : Bytes) (db : Db) → bytes_eq a b ≡ true → live_row a db ≡ live_row b db
live_row-eq a b db h = ap (λ c. live_row c db) ((bytes_eq_iff a b).0 h)

-- Backfilling the row that the database gave for a code.
pub set-IsCoherent :
    (fault : Bool) (ttl now : ℕ) (code : Bytes) (l : Link) (w : World)
    → live_row code w.db ≡ some l
    → IsCoherent w
    → IsCoherent (record w { redis = (Cache.set fault ttl now l w.redis).1 })
unfolding Cache.set
set-IsCoherent true ttl now code l w row h = record { mirrored = h.mirrored }
set-IsCoherent false ttl now code l w row h = record {
  mirrored = λ t c s e. elim (Bool-cases (bytes_eq c l.code)) [
    | inl same ↦ (
      l,
      live_row-eq c code w.db (ground (arith, bytes_eq_iff c l.code, found)) ∙ row,
      subst (λ x. Mirrors x l)
          (entry-eq (still_there ttl now t) (sym (get-set ttl now t l c w.redis same) ∙ e))
          (snapshot-Mirrors code l found),
    )
    | inr other ↦ h.mirrored t c s (sym (get-set_ne ttl now t l c w.redis other) ∙ e)
  ];
}
  where
    found : has_live_code code l ≡ true
    found = find-holds (has_live_code code) w.db.links l row

pub set_negative-IsCoherent :
    (fault : Bool) (ttl now : ℕ) (key : Bytes) (w : World)
    → IsCoherent w
    → IsCoherent (record w { redis = (Cache.set_negative fault ttl now key w.redis).1 })
unfolding Cache.set_negative
set_negative-IsCoherent true ttl now key w h = record { mirrored = h.mirrored }
set_negative-IsCoherent false ttl now key w h = record {
  mirrored = λ t c s e. elim (Bool-cases (bytes_eq c key)) [
    | inl same ↦ absurd (ground (arith, bytes_eq_iff c key, get-set_negative ttl now t key w.redis))
    | inr other ↦ h.mirrored t c s (sym (get-set_negative_ne ttl now t c key w.redis other) ∙ e)
  ];
}

from_db-IsCoherent :
    (ttls : CacheTtls) (f : Faults) (now : ℕ) (code : Bytes) (w : World) (r : Result Link)
    → ((l : Link) → r ≡ ok l → live_row code w.db ≡ some l)
    → IsCoherent w
    → IsCoherent (backfill ttls f.cache_set now code w r).1
unfolding backfill
from_db-IsCoherent ttls f now code w (ok l) row h =
    set-IsCoherent f.cache_set ttls.ttl now code l w (row l refl) h
from_db-IsCoherent ttls f now code w (err not_found) row h =
    set_negative-IsCoherent f.cache_set ttls.neg_ttl now code w h
from_db-IsCoherent ttls f now code w (err e) row h = h

get_by_code-live_row :
    (fault : Bool) (code : Bytes) (db : Db) (l : Link)
    → get_by_code fault code db ≡ ok l
    → live_row code db ≡ some l
unfolding get_by_code
get_by_code-live_row fault code db l h = ground arith

missed-IsCoherent :
    (ttls : CacheTtls) (f : Faults) (now : ℕ) (code : Bytes) (w : World)
    → IsCoherent w
    → IsCoherent (from_db ttls f now code (observe_miss w)).1
unfolding from_db observe_miss
missed-IsCoherent ttls f now code w h =
    from_db-IsCoherent ttls f now code (observe_miss w) (get_by_code f.db_get code w.db)
      (get_by_code-live_row f.db_get code w.db) (record { mirrored = h.mirrored })

answer-IsCoherent :
    (ttls : CacheTtls) (f : Faults) (now : ℕ) (code : Bytes) (w : World)
    (c : Result (Option Link × Bool))
    → IsCoherent w
    → IsCoherent (answer ttls f now code w c).1
unfolding answer
answer-IsCoherent ttls f now code w (err e) h = missed-IsCoherent ttls f now code w h
answer-IsCoherent ttls f now code w (ok (some l, true)) h = record { mirrored = h.mirrored }
answer-IsCoherent ttls f now code w (ok (none, true)) h = record { mirrored = h.mirrored }
answer-IsCoherent ttls f now code w (ok (l, false)) h = missed-IsCoherent ttls f now code w h

-- `Resolve` keeps a coherent cache coherent, whichever of its calls fail: what it backfills mirrors
-- the row that it read.
pub resolve-IsCoherent :
    (ttls : CacheTtls) (f : Faults) (now : ℕ) (code : Bytes) (w : World)
    → IsCoherent w
    → IsCoherent (resolve ttls f now code w).1
unfolding resolve
resolve-IsCoherent ttls f now code w h =
    answer-IsCoherent ttls f now code w (Cache.get f.cache_get now code w.redis) h

db-from_db :
    (ttls : CacheTtls) (f : Faults) (now : ℕ) (code : Bytes) (w : World) (r : Result Link)
    → (backfill ttls f.cache_set now code w r).1.db ≡ w.db
unfolding backfill
db-from_db ttls f now code w (ok l) = refl
db-from_db ttls f now code w (err not_found) = refl
db-from_db ttls f now code w (err e) = refl

db-answer :
    (ttls : CacheTtls) (f : Faults) (now : ℕ) (code : Bytes) (w : World)
    (c : Result (Option Link × Bool))
    → (answer ttls f now code w c).1.db ≡ w.db
unfolding answer from_db
db-answer ttls f now code w (err e) = db-from_db ttls f now code _ (get_by_code f.db_get code w.db)
db-answer ttls f now code w (ok (some l, true)) = refl
db-answer ttls f now code w (ok (none, true)) = refl
db-answer ttls f now code w (ok (l, false)) =
    db-from_db ttls f now code _ (get_by_code f.db_get code w.db)

pub db-resolve :
    (ttls : CacheTtls) (f : Faults) (now : ℕ) (code : Bytes) (w : World)
    → (resolve ttls f now code w).1.db ≡ w.db
unfolding resolve
db-resolve ttls f now code w = db-answer ttls f now code w (Cache.get f.cache_get now code w.redis)
