-- ===== src/System.antt =====
-- The service as a whole: redirects (internal/service/redirect.go), link CRUD
-- (internal/service/link.go) and pipeline flushes (internal/analytics/pipeline.go) on one
-- PostgreSQL and one Redis. Each call is taken to run without another in between.
pub mod Soundness
pub mod Consistency
use go_link_shortener.Base.{ℕ, Bool, List, [], ◌∷◌, Bytes}
use go_link_shortener.Store.Db.{Click}
use go_link_shortener.Service.World.{World}
use go_link_shortener.Service.Redirect.{CacheTtls, Faults, resolve}
use go_link_shortener.Service.Links.{LinkService, CreateEnv, CreateLinkInput, create}
use go_link_shortener.Service.Links.Changes.{ChangeEnv, UpdateLinkInput, update, delete}
use go_link_shortener.Analytics.Flush.{Wiring, FlushEnv, flush}

pub record Config : Type 0 where
  pub ttls : CacheTtls
  pub links : LinkService
  pub wiring : Wiring

pub data Call : Type 0 where
  resolves : Faults → ℕ → Bytes → Call
  creates : CreateEnv → ℕ → CreateLinkInput → Call
  updates : ChangeEnv → ℕ → ℕ → UpdateLinkInput → Call
  deletes : ChangeEnv → ℕ → ℕ → Call
  flushes : FlushEnv → List Click → Call

unfoldable pub step : Config → Call → World → World
step c (resolves f now code) w = (resolve c.ttls f now code w).1
step c (creates env tenant input) w = (create c.links env tenant input w).1
step c (updates env tenant id input) w = (update c.links env tenant id input w).1
step c (deletes env tenant id) w = (delete c.links env tenant id w).1
step c (flushes env batch) w = flush c.wiring env batch w

unfoldable pub run : Config → List Call → World → World
unfolding step
run c [] w = w
run c (x ∷ xs) w = run c xs (step c x w)
