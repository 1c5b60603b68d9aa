-- ===== src/Server/Noninterference.antt =====
-- What the requests of the other tenants change of what a tenant reads: nothing.
use go_link_shortener.Base.{arith, ℕ, ◌≡◌, refl, Bool, true, false, List, [], ◌∷◌}
use go_link_shortener.Handler.Webhooks
use go_link_shortener.Service.Webhooks as WebhookService
use go_link_shortener.Store.Webhooks as HookStore
use go_link_shortener.Handler.Privacy.{reads-same}
use go_link_shortener.Server.{
  Server, State, ApiCall, post_link, list_links, get_link, patch_link, delete_link, link_stats,
  stats_overview, post_webhook, list_webhooks, delete_webhook, handle, ApiRequest, api, api_all,
}
use go_link_shortener.Server.Isolation.{
  NotAs, hooks_of, IsUntouched, IsUntouched-refl, IsUntouched-trans, api-IsUntouched,
}

-- None of the requests runs as `t`, in the state that it meets.
abbrev pub NoneAs : ℕ → Server → List ApiRequest → State → Type 0
NoneAs t sv [] st = Unit
NoneAs t sv (r ∷ rs) st =
    NotAs t sv r.env r.header st × NoneAs t sv rs (api sv r.env r.header r.call st).1

-- the requests that read the tenant's rows; the overview also reads the codes of joined links
abbrev pub is_read : ApiCall → Bool
is_read (get_link fault param) = true
is_read (list_links fault limit offset) = true
is_read (link_stats f now param q) = true
is_read (list_webhooks fault) = true
is_read call = false

api_all-IsUntouched :
    (t : ℕ) (sv : Server) (rs : List ApiRequest) (st : State)
    → NoneAs t sv rs st
    → IsUntouched t (api_all sv rs st) st
unfolding api_all
api_all-IsUntouched t sv [] st none_as = IsUntouched-refl t st
api_all-IsUntouched t sv (r ∷ rs) st none_as =
    let st' = (api sv r.env r.header r.call st).1 in
    IsUntouched-trans t (api_all sv rs st') st' st (api_all-IsUntouched t sv rs st' none_as.1)
      (api-IsUntouched t sv r.env r.header r.call st none_as.0)

list_webhooks-same :
    (t : ℕ) (fault : Bool) (a b : HookStore.Hooks)
    → hooks_of t a ≡ hooks_of t b
    → Webhooks.list fault t a ≡ Webhooks.list fault t b
unfolding Webhooks.list WebhookService.list HookStore.list_by_tenant
list_webhooks-same t true a b same = refl
list_webhooks-same t false a b same = rw same refl

handle-same :
    (t : ℕ) (sv : Server) (call : ApiCall) (a b : State)
    → IsUntouched t a b
    → is_read call ≡ true
    → (handle sv t call a).0 ≡ (handle sv t call b).0
unfolding handle
handle-same t sv (get_link fault param) a b same reads =
    (reads-same t a.world b.world same.rows).0 sv.links fault param
handle-same t sv (list_links fault limit offset) a b same reads =
    (reads-same t a.world b.world same.rows).1 sv.links fault limit offset
handle-same t sv (link_stats f now param q) a b same reads =
    (reads-same t a.world b.world same.rows).2 sv.decoder sv.sql f now param q
handle-same t sv (list_webhooks fault) a b same reads =
    list_webhooks-same t fault a.hooks b.hooks same.hooks
handle-same t sv (post_link env body) a b same reads = absurd (ground arith)
handle-same t sv (patch_link env param body) a b same reads = absurd (ground arith)
handle-same t sv (delete_link env param) a b same reads = absurd (ground arith)
handle-same t sv (stats_overview fault) a b same reads = absurd (ground arith)
handle-same t sv (post_webhook env body) a b same reads = absurd (ground arith)
handle-same t sv (delete_webhook fault param) a b same reads = absurd (ground arith)

-- After any requests of /api/v1 of which none gets in as tenant `t`, the keys, but for the times of
-- their last use, and the links, clicks and webhooks of `t` are as before, and `t` gets the same answer as before to every request for a
-- link, its list of links, the statistics of a link, and its list of webhooks.
pub api_all-unread :
    (t : ℕ) (sv : Server) (rs : List ApiRequest) (st : State) (call : ApiCall)
    → NoneAs t sv rs st
    → is_read call ≡ true
    → IsUntouched t (api_all sv rs st) st
      × ((handle sv t call (api_all sv rs st)).0 ≡ (handle sv t call st).0)
api_all-unread t sv rs st call none_as reads =
    let same = api_all-IsUntouched t sv rs st none_as in
    (same, handle-same t sv call (api_all sv rs st) st same reads)
