-- ===== src/Analytics/Flush.antt =====
-- `flush` of internal/analytics/pipeline.go: one batch is written, then the links that it exhausted
-- are evicted from the redirect cache.
pub mod Tracking
pub mod Eviction
pub mod Ordering
use go_link_shortener.Base.{ℕ, ◌+◌, Bool, true, false, List, [], ◌∷◌, Bytes, length, if◌then◌else◌}
use go_link_shortener.Domain.Errors.{Result, ok, err}
use go_link_shortener.Store.Db.{Click, Db}
use go_link_shortener.Store.Clicks.{record_batch}
use go_link_shortener.Store.Cache
use go_link_shortener.Store.Cache.{Redis}
use go_link_shortener.Service.World.{World}

-- whether the pipeline has a cache and a batch hook
pub record Wiring : Type 0 where
  pub has_cache : Bool
  pub has_hook : Bool

-- What one flush meets.
pub record FlushEnv : Type 0 where
  pub db_now : ℕ
  pub write_fails : Bool
  pub invalidate_fails : Bool

-- the loop over the exhausted codes
unfoldable pub evict_all : Bool → Bool → List Bytes → Redis → Redis
evict_all has_cache fault [] redis = redis
evict_all has_cache fault (code ∷ codes) redis =
    evict_all has_cache fault codes
      (if has_cache then (Cache.invalidate fault code redis).1 else redis)

after_write : Wiring → FlushEnv → List Click → World → Result (List Bytes) × Db → World
unfolding evict_all
after_write p env batch w (err e, db) = record w { db = db }
after_write p env batch w (ok codes, db) = record w {
  db = db;
  flushed = w.flushed + length batch;
  hooked_batches = if p.has_hook then batch ∷ w.hooked_batches else w.hooked_batches;
  redis = evict_all p.has_cache env.invalidate_fails codes w.redis;
}

unfoldable pub flush : Wiring → FlushEnv → List Click → World → World
unfolding after_write
flush p env batch w = after_write p env batch w (record_batch env.write_fails env.db_now batch w.db)
