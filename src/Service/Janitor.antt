-- ===== src/Service/Janitor.antt =====
-- `sweep` of internal/service/janitor.go. Times before 1970 are not represented: a cutoff that would
-- be earlier is 0, and no row is older.
pub mod Sweeping
use go_link_shortener.Base.{ℕ, ◌-◌, Bool}
use go_link_shortener.Store.Links.{purge_expired}
use go_link_shortener.Service.World.{World}

pub record LinkJanitor : Type 0 where
  pub tenant_id : ℕ
  pub retention : ℕ

-- the count and the error are logged only; the redirect cache is not told
unfoldable pub sweep : LinkJanitor → Bool → ℕ → World → World
sweep j fault now w = record w { db = (purge_expired fault j.tenant_id (now - j.retention) w.db).1 }
