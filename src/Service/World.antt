-- ===== src/Service/World.antt =====
-- What the services share: PostgreSQL, Redis, the events handed to the webhook notifier, and the
-- counters of the cache observer and of the click pipeline. A service call is a function on it.
use go_link_shortener.Base.{ℕ, List}
use go_link_shortener.Domain.Link.{Link}
use go_link_shortener.Store.Db.{Click, Db}
use go_link_shortener.Store.Cache.{Redis}

pub record World : Type 0 where
  pub db : Db
  pub redis : Redis
  pub created_events : List Link
  pub cache_hits : ℕ
  pub cache_misses : ℕ
  pub flushed : ℕ
  pub hooked_batches : List (List Click)
