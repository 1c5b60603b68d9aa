-- ===== src/Server.antt =====
-- The server that cmd/server/main.go wires: every request of /api/v1 goes through the gate to one
-- handler, which runs as the tenant of the key; redirects are public. Which request goes to which
-- handler is gin's routing: here a request names its handler.
pub mod Isolation
pub mod Noninterference
pub mod Process
pub mod Lifecycle
use go_link_shortener.Base.{ℕ, Bool, Option, none, some, List, [], ◌∷◌, Bytes}
use go_link_shortener.Domain.ApiKey.{ApiKey}
use go_link_shortener.Http.{Reply}
use go_link_shortener.Store.Stats.{Sql}
use go_link_shortener.Store.ApiKeys.{Keys}
use go_link_shortener.Store.Webhooks.{Hooks}
use go_link_shortener.Service.World.{World}
use go_link_shortener.Service.Redirect.{CacheTtls}
use go_link_shortener.Service.Links.{CreateEnv}
use go_link_shortener.Service.Links.Changes.{ChangeEnv}
use go_link_shortener.Service.Stats.{StatsFaults}
use go_link_shortener.Service.Webhooks.{WebhookEnv}
use go_link_shortener.Middleware.RateLimit.{Buckets}
use go_link_shortener.Middleware.Auth.{api_key_auth}
use go_link_shortener.Middleware.Gate.{
  Crypto, Limits, GateEnv, Gated, stopped, enters, after_auth, api_gate,
}
use go_link_shortener.Handler.Request.{Decoder}
use go_link_shortener.Handler.Links
use go_link_shortener.Handler.Links.{LinkHandler}
use go_link_shortener.Handler.Stats
use go_link_shortener.Handler.Stats.{StatsQuery}
use go_link_shortener.Handler.Webhooks
use go_link_shortener.Handler.Redirect.{RedirectRequest, RedirectEnv, redirect}

pub record Server : Type 0 where
  pub crypto : Crypto
  pub limits : Limits
  pub links : LinkHandler
  pub decoder : Decoder
  pub sql : Sql
  pub ttls : CacheTtls

pub record State : Type 0 where
  pub keys : Keys
  pub buckets : Buckets
  pub world : World
  pub hooks : Hooks

-- the routes of the group, with what their handlers read and meet
pub data ApiCall : Type 0 where
  post_link : CreateEnv → Bytes → ApiCall
  list_links : Bool → Bytes → Bytes → ApiCall
  get_link : Bool → Bytes → ApiCall
  patch_link : ChangeEnv → Bytes → Option Bytes → ApiCall
  delete_link : ChangeEnv → Bytes → ApiCall
  link_stats : StatsFaults → ℕ → Bytes → StatsQuery → ApiCall
  stats_overview : Bool → ApiCall
  post_webhook : WebhookEnv → Bytes → ApiCall
  list_webhooks : Bool → ApiCall
  delete_webhook : Bool → Bytes → ApiCall

in_world : State → Reply × World → Reply × State
in_world st (reply, w) = (reply, record st { world = w })

in_hooks : State → Reply × Hooks → Reply × State
in_hooks st (reply, hooks) = (reply, record st { hooks = hooks })

unfoldable pub handle : Server → ℕ → ApiCall → State → Reply × State
unfolding in_world in_hooks
handle sv tenant (post_link env body) st =
    in_world st (Links.create sv.links env tenant body st.world)
handle sv tenant (list_links fault limit offset) st =
    (Links.list sv.links fault tenant limit offset st.world, st)
handle sv tenant (get_link fault param) st =
    (Links.get_link sv.links fault tenant param st.world, st)
handle sv tenant (patch_link env param body) st =
    in_world st (Links.update sv.links env tenant param body st.world)
handle sv tenant (delete_link env param) st =
    in_world st (Links.delete sv.links env tenant param st.world)
handle sv tenant (link_stats f now param q) st =
    (Stats.link_stats sv.decoder sv.sql f now tenant param q st.world.db, st)
handle sv tenant (stats_overview fault) st = (Stats.overview sv.sql fault tenant st.world.db, st)
handle sv tenant (post_webhook env body) st =
    in_hooks st (Webhooks.create sv.decoder env tenant body st.hooks)
handle sv tenant (list_webhooks fault) st = (Webhooks.list fault tenant st.hooks, st)
handle sv tenant (delete_webhook fault param) st =
    in_hooks st (Webhooks.delete sv.decoder fault tenant param st.hooks)

behind_gate : Server → ApiCall → State → Gated × Buckets → Reply × State
unfolding handle
behind_gate sv call st (stopped reply, buckets) = (reply, record st { buckets = buckets })
behind_gate sv call st (enters k headers, buckets) =
    handle sv k.tenant_id call (record st { buckets = buckets })

-- a request of /api/v1, with its Authorization header
unfoldable pub api : Server → GateEnv → Bytes → ApiCall → State → Reply × State
unfolding behind_gate api_gate after_auth
api sv env header call st =
    let o = api_key_auth sv.crypto.trim_space sv.crypto.hash env.keys_fail header st.keys in
    behind_gate sv call (record st { keys = after_auth env o st.keys })
      (api_gate sv.crypto sv.limits env header st.keys st.buckets)

-- a request for a code
unfoldable pub visit : Server → RedirectEnv → RedirectRequest → State → Reply × State
visit sv env q st =
    let (run, w) = redirect sv.ttls env q st.world in (run.reply, record st { world = w })

-- a request of /api/v1: what it meets at the gate, its header and its handler
pub record ApiRequest : Type 0 where
  pub env : GateEnv
  pub header : Bytes
  pub call : ApiCall

unfoldable pub api_all : Server → List ApiRequest → State → State
unfolding api
api_all sv [] st = st
api_all sv (r ∷ rs) st = api_all sv rs (api sv r.env r.header r.call st).1
