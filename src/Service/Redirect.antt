-- ===== src/Service/Redirect.antt =====
-- internal/service/redirect.go. `Faults` says which of the calls of one `Resolve` fail.
pub mod Agreement
pub mod Coherence
pub mod Races
use go_link_shortener.Base.{
  ℕ, ◌+◌, Bool, true, false, not, Option, none, some, Bytes, if◌then◌else◌,
}
use go_link_shortener.Domain.Errors.{not_found, gone, Result, ok, err}
use go_link_shortener.Domain.Link.{Link, is_active}
use go_link_shortener.Store.Links.{get_by_code}
use go_link_shortener.Store.Cache
use go_link_shortener.Service.World.{World}

pub record CacheTtls : Type 0 where
  pub ttl : ℕ
  pub neg_ttl : ℕ

pub record Faults : Type 0 where
  pub cache_get : Bool
  pub db_get : Bool
  pub cache_set : Bool

unfoldable pub check_active : ℕ → Link → Result Link
check_active now l = if not (is_active l now) then err gone else ok l

observe_hit : World → World
observe_hit w = record w { cache_hits = w.cache_hits + 1 }

observe_miss : World → World
observe_miss w = record w { cache_misses = w.cache_misses + 1 }

-- the tail of `fromDB`, on what the database answered
unfoldable pub backfill : CacheTtls → Bool → ℕ → Bytes → World → Result Link → Result Link × World
unfolding check_active
backfill t fault now code w (ok l) =
    (check_active now l, record w { redis = (Cache.set fault t.ttl now l w.redis).1 })
backfill t fault now code w (err not_found) =
    (err not_found, record w { redis = (Cache.set_negative fault t.neg_ttl now code w.redis).1 })
backfill t fault now code w (err e) = (err e, w)

unfoldable pub from_db : CacheTtls → Faults → ℕ → Bytes → World → Result Link × World
unfolding backfill
from_db t f now code w = backfill t f.cache_set now code w (get_by_code f.db_get code w.db)

-- the switch of `Resolve`, on what the cache answered
answer : CacheTtls → Faults → ℕ → Bytes → World → Result (Option Link × Bool) → Result Link × World
unfolding observe_hit observe_miss from_db check_active
answer t f now code w (err e) = from_db t f now code (observe_miss w)
answer t f now code w (ok (some l, true)) = (check_active now l, observe_hit w)
answer t f now code w (ok (none, true)) = (err not_found, observe_hit w)
answer t f now code w (ok (l, false)) = from_db t f now code (observe_miss w)

unfoldable pub resolve : CacheTtls → Faults → ℕ → Bytes → World → Result Link × World
unfolding answer
resolve t f now code w = answer t f now code w (Cache.get f.cache_get now code w.redis)
