-- ===== src/Server/Process.antt =====
-- What changes the state of a running process of cmd/server/main.go, in any order: requests of
-- /api/v1, redirects, flushes of the click pipeline, and sweeps of the demo janitor.
pub mod Soundness
use go_link_shortener.Base.{ℕ, Bool, List, [], ◌∷◌}
use go_link_shortener.Store.Db.{Click}
use go_link_shortener.Service.Janitor.{LinkJanitor, sweep}
use go_link_shortener.Analytics.Flush.{Wiring, FlushEnv, flush}
use go_link_shortener.Handler.Redirect.{RedirectRequest, RedirectEnv}
use go_link_shortener.Server.{Server, State, ApiRequest, api, visit}

pub record Process : Type 0 where
  pub server : Server
  pub wiring : Wiring
  pub janitor : LinkJanitor

pub data Happening : Type 0 where
  requested : ApiRequest → Happening
  visited : RedirectEnv → RedirectRequest → Happening
  flushed_batch : FlushEnv → List Click → Happening
  swept : Bool → ℕ → Happening

unfoldable pub advance : Process → Happening → State → State
advance p (requested r) st = (api p.server r.env r.header r.call st).1
advance p (visited env q) st = (visit p.server env q st).1
advance p (flushed_batch env batch) st = record st { world = flush p.wiring env batch st.world }
advance p (swept fault now) st = record st { world = sweep p.janitor fault now st.world }

unfoldable pub advance_all : Process → List Happening → State → State
unfolding advance
advance_all p [] st = st
advance_all p (h ∷ hs) st = advance_all p hs (advance p h st)
