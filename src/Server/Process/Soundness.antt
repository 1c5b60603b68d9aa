-- ===== src/Server/Process/Soundness.antt =====
-- The database stays sound whatever happens.
use go_link_shortener.Store.Integrity.Purge.{purge_expired-IsSound}
use go_link_shortener.Base.{ℕ, List, [], ◌∷◌}
use go_link_shortener.Store.Integrity.{IsSound}
use go_link_shortener.Service.Janitor.{sweep}
use go_link_shortener.System.{Config, resolves, creates, updates, deletes, flushes, step}
use go_link_shortener.System.Soundness.{step-IsSound}
use go_link_shortener.Handler.Links.Writes.{create-world, update-world, delete-world}
use go_link_shortener.Handler.Redirect.{redirect}
use go_link_shortener.Middleware.RateLimit.{Buckets}
use go_link_shortener.Store.ApiKeys.{Keys}
use go_link_shortener.Middleware.Auth.{api_key_auth}
use go_link_shortener.Middleware.Gate.{after_auth, Gated, stopped, enters}
use go_link_shortener.Server.{
  ApiRequest, State, ApiCall, post_link, list_links, get_link, patch_link, delete_link, link_stats,
  stats_overview, post_webhook, list_webhooks, delete_webhook, handle, behind_gate, api, visit,
}
use go_link_shortener.Server.Process.{
  Process, Happening, requested, visited, flushed_batch, swept, advance, advance_all,
}

module _ (p : Process) where
  config : Config
  config = record { ttls = p.server.ttls; links = p.server.links.svc; wiring = p.wiring }

  handle-IsSound :
      (tenant : ℕ) (call : ApiCall) (st : State)
      → IsSound st.world.db
      → IsSound (handle p.server tenant call st).1.world.db
  unfolding handle step config
  handle-IsSound tenant (post_link env body) st sound =
      create-world (λ w. IsSound w.db) p.server.links env tenant body st.world sound
        (λ input. step-IsSound config (creates env tenant input) st.world sound)
  handle-IsSound tenant (patch_link env param body) st sound =
      update-world (λ w. IsSound w.db) p.server.links env tenant st.world sound param body
        (λ id input. step-IsSound config (updates env tenant id input) st.world sound)
  handle-IsSound tenant (delete_link env param) st sound =
      delete-world (λ w. IsSound w.db) p.server.links env tenant st.world sound param
        (λ id. step-IsSound config (deletes env tenant id) st.world sound)
  handle-IsSound tenant (post_webhook env body) st sound = sound
  handle-IsSound tenant (delete_webhook fault param) st sound = sound
  handle-IsSound tenant (list_links fault limit offset) st sound = sound
  handle-IsSound tenant (get_link fault param) st sound = sound
  handle-IsSound tenant (link_stats f now param q) st sound = sound
  handle-IsSound tenant (stats_overview fault) st sound = sound
  handle-IsSound tenant (list_webhooks fault) st sound = sound

  behind_gate-IsSound :
      (call : ApiCall) (st : State) (g : Gated × Buckets)
      → IsSound st.world.db
      → IsSound (behind_gate p.server call st g).1.world.db
  unfolding behind_gate
  behind_gate-IsSound call st (stopped reply, b) sound = sound
  behind_gate-IsSound call st (enters k h, b) sound =
      handle-IsSound k.tenant_id call (record st { buckets = b }) sound

  abbrev authenticated : ApiRequest → State → Keys
  authenticated r st =
      after_auth r.env
        (api_key_auth p.server.crypto.trim_space p.server.crypto.hash r.env.keys_fail r.header
          st.keys)
        st.keys

  advance-IsSound :
      (h : Happening) (st : State) → IsSound st.world.db → IsSound (advance p h st).world.db
  unfolding advance api visit redirect sweep step config
  advance-IsSound (requested r) st sound =
      behind_gate-IsSound r.call (record st { keys = authenticated r st }) _ sound
  advance-IsSound (visited env q) st sound =
      step-IsSound config (resolves env.faults env.now q.code) st.world sound
  advance-IsSound (flushed_batch env batch) st sound =
      step-IsSound config (flushes env batch) st.world sound
  advance-IsSound (swept fault now) st sound =
      purge_expired-IsSound fault p.janitor.tenant_id _ st.world.db sound

-- Requests of /api/v1, admitted or not, redirects, flushes and sweeps, in any order and with any
-- failures, keep the database sound: the ids of its links and their live codes are distinct, every
-- click counter is the number of the link's clicks, and every click is of a link.
pub advance_all-IsSound :
    (p : Process) (hs : List Happening) (st : State)
    → IsSound st.world.db
    → IsSound (advance_all p hs st).world.db
unfolding advance_all
advance_all-IsSound p [] st sound = sound
advance_all-IsSound p (h ∷ hs) st sound =
    advance_all-IsSound p hs (advance p h st) (advance-IsSound p h st sound)
