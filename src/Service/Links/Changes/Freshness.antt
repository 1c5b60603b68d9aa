-- ===== src/Service/Links/Changes/Freshness.antt =====
-- After `Update` and `Delete` of internal/service/link.go the cache is coherent again: the entry
-- of the link's code is gone, and the rows of the other codes are as before.
use go_link_shortener.Base.{
  ◌∙◌, ℕ, ◌≡◌, refl, Bool, true, false, Option, none, some, Bytes, bytes_eq, arith, find,
  find-holds,
}
use go_link_shortener.Domain.Errors.{Error, Result, ok, err}
use go_link_shortener.Domain.Link.{Link}
use go_link_shortener.Store.Db.{Db, is_owned}
use go_link_shortener.Store.Links
use go_link_shortener.Store.Integrity.{IdsDistinct, IsSound}
use go_link_shortener.Store.Cache
use go_link_shortener.Store.Cache.{Redis}
use go_link_shortener.Store.Cache.Reads.{get-invalidate}
use go_link_shortener.Service.Links.Changes.Rows.{live_row-update, live_row-soft_delete}
use go_link_shortener.Service.World.{World}
use go_link_shortener.Service.Links.{LinkService}
use go_link_shortener.Service.Links.Changes.{
  UpdateLinkInput, ChangeEnv, patched, evict, evict_both, updated, write_patched, update_found,
  update, deleted, delete_found, delete,
}
use go_link_shortener.Service.Links.Changes.Patching.{SameKey, patched-SameKey}
use go_link_shortener.Service.Redirect.Agreement.{live_row, IsCoherent}

-- A positive entry that outlives the eviction is of another code, and was there before.
evict_both-get :
    (s : LinkService) (fault : Bool) (old new : Bytes) (redis : Redis) (t : ℕ) (c : Bytes)
    (x : Link)
    → fault ≡ false
    → s.has_cache ≡ true
    → Cache.get false t c (evict_both s fault old new redis) ≡ ok (some x, true)
    → (bytes_eq c old ≡ false) × (Cache.get false t c redis ≡ ok (some x, true))
unfolding evict_both
evict_both-get s true old new redis t c x up has e = absurd (ground arith)
evict_both-get s false old new redis t c x up has e = ground (
  arith,
  get-invalidate t c old redis,
  get-invalidate t c new (Cache.invalidate false old redis).1,
)

evicted-get :
    (s : LinkService) (fault : Bool) (old : Bytes) (redis : Redis) (t : ℕ) (c : Bytes) (x : Link)
    → fault ≡ false
    → s.has_cache ≡ true
    → Cache.get false t c (evict s fault old redis) ≡ ok (some x, true)
    → (bytes_eq c old ≡ false) × (Cache.get false t c redis ≡ ok (some x, true))
unfolding evict
evicted-get s true old redis t c x up has e = absurd (ground arith)
evicted-get s false old redis t c x up has e = ground (arith, get-invalidate t c old redis)

-- What a write under one code has to meet, and the coherence that follows.
record Evicts (old : Bytes) (w w' : World) : Type 0 where
  gone :
      (t : ℕ) (c : Bytes) (x : Link)
      → Cache.get false t c w'.redis ≡ ok (some x, true)
      → (bytes_eq c old ≡ false) × (Cache.get false t c w.redis ≡ ok (some x, true))
  rows : (c : Bytes) → bytes_eq c old ≡ false → live_row c w'.db ≡ live_row c w.db

Evicts-IsCoherent : {old : Bytes} {w w' : World} → Evicts old w w' → IsCoherent w → IsCoherent w'
Evicts-IsCoherent v h = record {
  mirrored = λ t c s e.
      let (n, before) = v.gone t c s e in
      let (r, row, m) = h.mirrored t c s before in (r, v.rows c n ∙ row, m);
}

same_db-IsCoherent :
    (w : World) (db : Db) → db ≡ w.db → IsCoherent w → IsCoherent (record w { db = db })
same_db-IsCoherent w db e h = record {
  mirrored = λ t c s k. let (r, row, m) = h.mirrored t c s k in (r, rw e row, m);
}

update-failed :
    (fault : Bool) (now : ℕ) (l : Link) (db : Db) (e : Error)
    → (Links.update fault now l db).0 ≡ err e
    → (Links.update fault now l db).1 ≡ db
unfolding Links.update
update-failed true now l db e h = refl
update-failed false now l db e h = ground arith

soft_delete-failed :
    (fault : Bool) (now tenant id : ℕ) (db : Db) (e : Error)
    → (Links.soft_delete fault now tenant id db).0 ≡ err e
    → (Links.soft_delete fault now tenant id db).1 ≡ db
unfolding Links.soft_delete
soft_delete-failed true now tenant id db e h = refl
soft_delete-failed false now tenant id db e h = ground arith

owned-keys :
    (tenant id : ℕ) (l : Link) (db : Db)
    → find (is_owned tenant id) db.links ≡ some l
    → (l.tenant_id ≡ tenant) × (l.id ≡ id)
owned-keys tenant id l db e = ground (arith, find-holds (is_owned tenant id) db.links l)

-- The row is found again under the patched link's own keys.
owned_again :
    (tenant id : ℕ) (l a : Link) (db : Db)
    → find (is_owned tenant id) db.links ≡ some l
    → SameKey a l
    → find (is_owned a.tenant_id a.id) db.links ≡ some l
owned_again tenant id l a db e key =
    let (t, i) = owned-keys tenant id l db e in rw (key.tenant_id ∙ t, key.id ∙ i) e

-- the conditions under which an eviction takes place
pub record Evictable (s : LinkService) (env : ChangeEnv) : Type 0 where
  pub cached : s.has_cache ≡ true
  pub evicts : env.invalidate_fails ≡ false

module _ (s : LinkService) (env : ChangeEnv) (v : Evictable s env) where
  updated-IsCoherent :
      (old : Bytes) (w : World) (p : Result Link × Db)
      → ((c : Bytes) → bytes_eq c old ≡ false → live_row c p.1 ≡ live_row c w.db)
      → ((e : Error) → p.0 ≡ err e → p.1 ≡ w.db)
      → IsCoherent w
      → IsCoherent (updated s env old w p).1
  unfolding updated
  updated-IsCoherent old w (err e, db) rows failed h = same_db-IsCoherent w db (failed e refl) h
  updated-IsCoherent old w (ok l, db) rows failed h =
      Evicts-IsCoherent {old = old}
        (record {
          gone = λ t c x e.
              evict_both-get s env.invalidate_fails old l.code w.redis t c x v.evicts v.cached e;
          rows = rows;
        })
        h

  deleted-IsCoherent :
      (old : Bytes) (w : World) (p : Result (Unit {0}) × Db)
      → ((c : Bytes) → bytes_eq c old ≡ false → live_row c p.1 ≡ live_row c w.db)
      → ((e : Error) → p.0 ≡ err e → p.1 ≡ w.db)
      → IsCoherent w
      → IsCoherent (deleted s env old w p).1
  unfolding deleted
  deleted-IsCoherent old w (err e, db) rows failed h = same_db-IsCoherent w db (failed e refl) h
  deleted-IsCoherent old w (ok u, db) rows failed h =
      Evicts-IsCoherent {old = old}
        (record {
          gone =
              λ t c x e. evicted-get s env.invalidate_fails old w.redis t c x v.evicts v.cached e;
          rows = rows;
        })
        h

  write_patched-IsCoherent :
      (tenant id : ℕ) (input : UpdateLinkInput) (l : Link) (w : World)
      → IdsDistinct w.db.links
      → find (is_owned tenant id) w.db.links ≡ some l
      → (p : Result Link) → patched s env.now tenant input l ≡ p
      → IsCoherent w
      → IsCoherent (write_patched s env l.code w p).1
  unfolding write_patched
  write_patched-IsCoherent tenant id input l w d e (err x) q h = h
  write_patched-IsCoherent tenant id input l w d e (ok a) q h =
      updated-IsCoherent l.code w _
        (λ c n.
          live_row-update env.write_fails env.db_now a l c w.db d
            (owned_again tenant id l a w.db e key) key.code n)
        (update-failed env.write_fails env.db_now a w.db) h
    where
      key : SameKey a l
      key = patched-SameKey s env.now tenant input l q

-- If the service has a cache and the evictions of the call work, `Update` on sound tables keeps the
-- cache coherent, whichever fields change and whether or not the database fails.
pub update-IsCoherent :
    (s : LinkService) (env : ChangeEnv) (tenant id : ℕ) (input : UpdateLinkInput) (w : World)
    → Evictable s env
    → IsSound w.db
    → IsCoherent w
    → IsCoherent (update s env tenant id input w).1
unfolding update Links.get_by_id_for_tenant
update-IsCoherent s env tenant id input w v sound h =
    go env.get_fails (find (is_owned tenant id) w.db.links) refl
  where
    go :
        (fault : Bool) (o : Option Link)
        → find (is_owned tenant id) w.db.links ≡ o
        → IsCoherent
            (update_found s env tenant input w (Links.get_by_id_for_tenant fault tenant id w.db)).1
    go true o e = h
    go false none e = rw (e, Links.get_by_id_for_tenant) h
    go false (some l) e =
        rw (e, Links.get_by_id_for_tenant)
          (write_patched-IsCoherent s env v tenant id input l w sound.ids e _ refl h)

-- If the service has a cache and the eviction of the call works, `Delete` on sound tables keeps the
-- cache coherent, whether or not the database fails.
pub delete-IsCoherent :
    (s : LinkService) (env : ChangeEnv) (tenant id : ℕ) (w : World)
    → Evictable s env
    → IsSound w.db
    → IsCoherent w
    → IsCoherent (delete s env tenant id w).1
unfolding delete Links.get_by_id_for_tenant
delete-IsCoherent s env tenant id w v sound h =
    go env.get_fails (find (is_owned tenant id) w.db.links) refl
  where
    go :
        (fault : Bool) (o : Option Link)
        → find (is_owned tenant id) w.db.links ≡ o
        → IsCoherent
            (delete_found s env tenant id w (Links.get_by_id_for_tenant fault tenant id w.db)).1
    go true o e = h
    go false none e = rw (e, Links.get_by_id_for_tenant) h
    go false (some l) e =
        rw (e, Links.get_by_id_for_tenant)
          (deleted-IsCoherent s env v l.code w _
            (λ c n.
              live_row-soft_delete env.write_fails env.db_now tenant id l c w.db sound.ids e n)
            (soft_delete-failed env.write_fails env.db_now tenant id w.db) h)
