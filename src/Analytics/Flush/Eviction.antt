-- ===== src/Analytics/Flush/Eviction.antt =====
-- A flush keeps the redirect cache coherent: of the links whose counters it moves, those that reach
-- their limit are evicted, and the others are as exhausted as before.
use go_link_shortener.Base.{
  all, ℕ, ◌≡◌, refl, sym, ◌∙◌, Bool, true, false, some, List, [], ◌∷◌, Bytes, one_of, arith, inl,
  inr, Bool-cases,
}
use go_link_shortener.Domain.Errors.{Result, ok, err}
use go_link_shortener.Domain.Link.{Link}
use go_link_shortener.Store.Db.{Click, Db}
use go_link_shortener.Store.Clicks.{tally, commit_batch, record_batch}
use go_link_shortener.Store.Links.{points_into}
use go_link_shortener.Store.Integrity.{IsSound}
use go_link_shortener.Store.Cache
use go_link_shortener.Store.Cache.{Redis}
use go_link_shortener.Store.Cache.Reads.{get-invalidate}
use go_link_shortener.Analytics.Flush.Tracking.{IsTracked, increment-IsTracked}
use go_link_shortener.Service.World.{World}
use go_link_shortener.Service.Redirect.Agreement.{Mirrors, IsCoherent}
use go_link_shortener.Analytics.Flush.{Wiring, FlushEnv, evict_all, after_write, flush}

-- A positive entry that outlives the evictions is of no evicted code, and was there before.
evict_all-get :
    (has_cache fault : Bool) (codes : List Bytes) (redis : Redis) (t : ℕ) (c : Bytes) (x : Link)
    → has_cache ≡ true
    → fault ≡ false
    → Cache.get false t c (evict_all has_cache fault codes redis) ≡ ok (some x, true)
    → (one_of codes c ≡ false) × (Cache.get false t c redis ≡ ok (some x, true))
unfolding evict_all
evict_all-get has_cache fault [] redis t c x h k e = (refl, e)
evict_all-get false fault (code ∷ codes) redis t c x h k e = absurd (ground arith)
evict_all-get true true (code ∷ codes) redis t c x h k e = absurd (ground arith)
evict_all-get true false (code ∷ codes) redis t c x h k e =
    let (later, before) =
      evict_all-get true false codes (Cache.invalidate false code redis).1 t c x h k e in
    ground (arith, later, before, get-invalidate t c code redis)

-- the conditions under which the evictions take place
pub record Evicts (p : Wiring) (env : FlushEnv) : Type 0 where
  pub cached : p.has_cache ≡ true
  pub works : env.invalidate_fails ≡ false

tracked-Mirrors :
    (code : Bytes) (codes : List Bytes) (s r b : Link)
    → Mirrors s r
    → IsTracked code codes r b
    → one_of codes code ≡ false
    → Mirrors s b
tracked-Mirrors code codes s r b m k out = record {
  same = m.same ∙ k.clicked.same;
  expiry = m.expiry ∙ k.clicked.expiry;
  exhausted = ground (arith, k.noted, m.exhausted);
  kept = m.kept;
  live = sym k.clicked.deleted ∙ m.live;
}

-- (`batch` is what the hook is given, `b` what is written)
committed-IsCoherent :
    (p : Wiring) (env : FlushEnv) (batch b : List Click) (w : World)
    → Evicts p env
    → IsSound w.db
    → IsCoherent w
    → IsCoherent (after_write p env batch w (commit_batch env.db_now b w.db))
unfolding after_write commit_batch
committed-IsCoherent p env batch b w v sound h = record {
  mirrored = λ t c s e.
      let (out, before) =
        evict_all-get p.has_cache env.invalidate_fails _ w.redis t c s v.cached v.works e in
      let (r, row, m) = h.mirrored t c s before in
      let (b', row', tracked) =
        increment-IsTracked env.db_now (tally [] b) c r w.db.links sound.ids row in
      (b', row', tracked-Mirrors c _ s r b' m tracked out);
}

written-IsCoherent :
    (p : Wiring) (env : FlushEnv) (batch : List Click) (fault : Bool) (b : List Click) (w : World)
    → Evicts p env
    → IsSound w.db
    → IsCoherent w
    → IsCoherent (after_write p env batch w (record_batch fault env.db_now b w.db))
unfolding record_batch after_write
written-IsCoherent p env batch fault [] w v sound h = record { mirrored = h.mirrored }
written-IsCoherent p env batch true (c ∷ cs) w v sound h = record { mirrored = h.mirrored }
written-IsCoherent p env batch false (c ∷ cs) w v sound h =
    elim (Bool-cases (all (points_into w.db.links) (c ∷ cs))) [
      | inl known ↦ rw known (committed-IsCoherent p env batch (c ∷ cs) w v sound h)
      | inr unknown ↦ rw unknown (record { mirrored = h.mirrored })
    ]

-- A flush keeps the cache coherent, if the evictions that it makes work: whatever the batch, and
-- whether or not it is written.
pub flush-IsCoherent :
    (p : Wiring) (env : FlushEnv) (batch : List Click) (w : World)
    → Evicts p env
    → IsSound w.db
    → IsCoherent w
    → IsCoherent (flush p env batch w)
unfolding flush
flush-IsCoherent p env batch w v sound h =
    written-IsCoherent p env batch env.write_fails batch w v sound h

after_write-db :
    (p : Wiring) (env : FlushEnv) (batch : List Click) (w : World) (r : Result (List Bytes) × Db)
    → (after_write p env batch w r).db ≡ r.1
unfolding after_write
after_write-db p env batch w (ok codes, db) = refl
after_write-db p env batch w (err e, db) = refl

pub db-flush :
    (p : Wiring) (env : FlushEnv) (batch : List Click) (w : World)
    → (flush p env batch w).db ≡ (record_batch env.write_fails env.db_now batch w.db).1
unfolding flush
db-flush p env batch w =
    after_write-db p env batch w (record_batch env.write_fails env.db_now batch w.db)
