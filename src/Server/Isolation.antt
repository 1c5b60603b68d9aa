-- ===== src/Server/Isolation.antt =====
-- What the requests of some tenants leave of another's data.
use go_link_shortener.Base.{
  inl, inr, change, Bool-cases, none, map, ℕ, ◌≡◌, refl, ◌∙◌, Bool, true, false, not, Option, [],
  ◌∷◌, Bytes, keep, ◌==◌, arith,
}
use go_link_shortener.Domain.ApiKey.{ApiKey}
use go_link_shortener.Store.ApiKeys.{Keys, touched, touch_last_used}
use go_link_shortener.Service.Auth.{touch}
use go_link_shortener.Middleware.Auth.{Outcome, aborts, passes, api_key_auth}
use go_link_shortener.Domain.Errors.{Result, ok, err}
use go_link_shortener.Domain.Link.{Link}
use go_link_shortener.Domain.Webhook.{Webhook}
use go_link_shortener.Store.Privacy.{LooksSame, update-LooksSame, soft_delete-LooksSame}
use go_link_shortener.Store.Webhooks.{Hooks, is_owned, delete_for_tenant}
use go_link_shortener.Service.World.{World}
use go_link_shortener.Service.Links
use go_link_shortener.Service.Links.{LinkService, CreateEnv, CreateLinkInput}
use go_link_shortener.Service.Links.Effect.{CreateEffect, create-CreateEffect}
use go_link_shortener.Service.Links.Changes
use go_link_shortener.Service.Links.Changes.{ChangeEnv, UpdateLinkInput}
use go_link_shortener.Service.Links.Changes.Writes.{update-db, delete-db}
use go_link_shortener.Service.Webhooks
use go_link_shortener.Service.Webhooks.{WebhookEnv, CreateWebhookInput}
use go_link_shortener.Service.Webhooks.Subscription.{SubscriptionEffect, create-SubscriptionEffect}
use go_link_shortener.Handler.Links.Writes.{create-world, update-world, delete-world}
use go_link_shortener.Handler.Webhooks.Writes.{create-hooks, delete-hooks}
use go_link_shortener.Middleware.RateLimit.{Buckets, LimitHeaders}
use go_link_shortener.Middleware.Gate.{after_auth, GateEnv, Gated, stopped, enters, api_gate}
use go_link_shortener.Server.{
  Server, State, ApiCall, post_link, list_links, get_link, patch_link, delete_link, link_stats,
  stats_overview, post_webhook, list_webhooks, delete_webhook, handle, behind_gate, api,
}

module _ (t k : ℕ) (distinct : (k == t) ≡ false) (s : LinkService) where
  created-LooksSame :
      (now : ℕ) (input : CreateLinkInput) (w : World) (p : Result Link × World)
      → CreateEffect s now k input w p
      → LooksSame t p.1.db w.db
  created-LooksSame now input w (ok l, w') e = record {
    links = rw (e.1.links) (ground (arith, e.0.tenant_id));
    clicks = rw (e.1.clicks) refl;
  }
  created-LooksSame now input w (err x, w') e = rw e (record { links = refl; clicks = refl })

  create-LooksSame :
      (env : CreateEnv) (input : CreateLinkInput) (w : World)
      → LooksSame t (Links.create s env k input w).1.db w.db
  create-LooksSame env input w =
      created-LooksSame env.now input w (Links.create s env k input w)
        (create-CreateEffect s env k input w)

  changed-LooksSame :
      (env : ChangeEnv) (id : ℕ) (input : UpdateLinkInput) (w : World)
      → LooksSame t (Changes.update s env k id input w).1.db w.db
  changed-LooksSame env id input w =
      update-db (λ db. LooksSame t db w.db) s env k id input w
        (record { links = refl; clicks = refl })
        (λ l own. update-LooksSame t k distinct env.write_fails env.db_now l w.db own)

  deleted-LooksSame :
      (env : ChangeEnv) (id : ℕ) (w : World) → LooksSame t (Changes.delete s env k id w).1.db w.db
  deleted-LooksSame env id w =
      delete-db (λ db. LooksSame t db w.db) s env k id w (record { links = refl; clicks = refl })
        (soft_delete-LooksSame t k distinct env.write_fails env.db_now id w.db)

-- the webhooks of a tenant
abbrev pub hooks_of : ℕ → Hooks → Hooks
hooks_of t hooks = keep (λ w. w.tenant_id == t) hooks

module _ (t k : ℕ) (distinct : (k == t) ≡ false) where
  subscribed-hooks_of :
      (input : CreateWebhookInput) (hooks : Hooks) (p : Result Webhook × Hooks)
      → SubscriptionEffect k input hooks p
      → hooks_of t p.1 ≡ hooks_of t hooks
  subscribed-hooks_of input hooks (ok w, hooks') e = rw (e.1) (ground (arith, e.0.tenant_id))
  subscribed-hooks_of input hooks (err x, hooks') e = rw e refl

  keep_unowned :
      (id : ℕ) (hooks : Hooks)
      → hooks_of t (keep (λ w. not (is_owned k id w)) hooks) ≡ hooks_of t hooks
  keep_unowned id [] = refl
  keep_unowned id (w ∷ ws) = ground (arith, keep_unowned id ws)

  hooks_of-delete :
      (fault : Bool) (id : ℕ) (hooks : Hooks)
      → hooks_of t (Webhooks.delete fault k id hooks).1 ≡ hooks_of t hooks
  unfolding Webhooks.delete delete_for_tenant
  hooks_of-delete true id hooks = refl
  hooks_of-delete false id hooks = ground (arith, keep_unowned id hooks)

-- a key without the time of its last use
abbrev pub undated : ApiKey → ApiKey
undated k = record k { last_used_at = none }

-- The keys, but for the times of their last use, and a tenant's links, clicks and webhooks are as
-- before.
pub record IsUntouched (t : ℕ) (a b : State) : Type 0 where
  pub keys : map undated a.keys ≡ map undated b.keys
  pub rows : LooksSame t a.world.db b.world.db
  pub hooks : hooks_of t a.hooks ≡ hooks_of t b.hooks

pub IsUntouched-refl : (t : ℕ) (st : State) → IsUntouched t st st
IsUntouched-refl t st = record {
  keys = refl;
  rows = record { links = refl; clicks = refl };
  hooks = refl;
}

pub IsUntouched-trans :
    (t : ℕ) (a b c : State) → IsUntouched t a b → IsUntouched t b c → IsUntouched t a c
IsUntouched-trans t a b c p q = record {
  keys = p.keys ∙ q.keys;
  rows = record { links = p.rows.links ∙ q.rows.links; clicks = p.rows.clicks ∙ q.rows.clicks };
  hooks = p.hooks ∙ q.hooks;
}

module _ (t k : ℕ) (distinct : (k == t) ≡ false) (sv : Server) (st : State) where
  in_world-IsUntouched :
      (w : World) → LooksSame t w.db st.world.db → IsUntouched t (record st { world = w }) st
  in_world-IsUntouched w h = record { keys = refl; rows = h; hooks = refl }

  in_hooks-IsUntouched :
      (hooks : Hooks)
      → hooks_of t hooks ≡ hooks_of t st.hooks
      → IsUntouched t (record st { hooks = hooks }) st
  in_hooks-IsUntouched hooks h = record {
    keys = refl;
    rows = record { links = refl; clicks = refl };
    hooks = h;
  }

  same_world : LooksSame t st.world.db st.world.db
  same_world = record { links = refl; clicks = refl }

  handle-IsUntouched : (call : ApiCall) → IsUntouched t (handle sv k call st).1 st
  unfolding handle
  handle-IsUntouched (post_link env body) = in_world-IsUntouched _ (
      create-world (λ w. LooksSame t w.db st.world.db) sv.links env k body st.world same_world
        (λ input. create-LooksSame t k distinct sv.links.svc env input st.world))
  handle-IsUntouched (patch_link env param body) = in_world-IsUntouched _ (
      update-world (λ w. LooksSame t w.db st.world.db) sv.links env k st.world same_world param body
        (λ id input. changed-LooksSame t k distinct sv.links.svc env id input st.world))
  handle-IsUntouched (delete_link env param) = in_world-IsUntouched _ (
      delete-world (λ w. LooksSame t w.db st.world.db) sv.links env k st.world same_world param
        (λ id. deleted-LooksSame t k distinct sv.links.svc env id st.world))
  handle-IsUntouched (post_webhook env body) = in_hooks-IsUntouched _ (
      create-hooks (λ hooks. hooks_of t hooks ≡ hooks_of t st.hooks) k st.hooks refl sv.decoder env
        body
        (λ input.
          subscribed-hooks_of t k distinct input st.hooks _
            (create-SubscriptionEffect env k input st.hooks)))
  handle-IsUntouched (delete_webhook fault param) = in_hooks-IsUntouched _ (
      delete-hooks (λ hooks. hooks_of t hooks ≡ hooks_of t st.hooks) k st.hooks refl sv.decoder
        fault param (λ id. hooks_of-delete t k distinct fault id st.hooks))
  handle-IsUntouched (list_links fault limit offset) = IsUntouched-refl t st
  handle-IsUntouched (get_link fault param) = IsUntouched-refl t st
  handle-IsUntouched (link_stats f now param q) = IsUntouched-refl t st
  handle-IsUntouched (stats_overview fault) = IsUntouched-refl t st
  handle-IsUntouched (list_webhooks fault) = IsUntouched-refl t st

behind_gate-IsUntouched :
    (t : ℕ) (sv : Server) (call : ApiCall) (st : State) (g : Gated × Buckets)
    → ((k : ApiKey) (h : Option LimitHeaders) (b : Buckets)
        → g ≡ (enters k h, b)
        → (k.tenant_id == t) ≡ false)
    → IsUntouched t (behind_gate sv call st g).1 st
unfolding behind_gate
behind_gate-IsUntouched t sv call st (stopped reply, b) other = record {
  keys = refl;
  rows = record { links = refl; clicks = refl };
  hooks = refl;
}
behind_gate-IsUntouched t sv call st (enters k h, b) other =
    IsUntouched-trans t _ (record st { buckets = b }) st
      (handle-IsUntouched t k.tenant_id (other k h b refl) sv (record st { buckets = b }) call)
      (record { keys = refl; rows = record { links = refl; clicks = refl }; hooks = refl })

undated-touched :
    (now id : ℕ) (keys : Keys)
    → map undated (change (λ k. k.id == id) (touched now) keys) ≡ map undated keys
unfolding touched
undated-touched now id [] = refl
undated-touched now id (k ∷ keys) = ground (arith, undated-touched now id keys)

undated-after_auth :
    (env : GateEnv) (o : Outcome) (keys : Keys)
    → map undated (after_auth env o keys) ≡ map undated keys
unfolding after_auth touch touch_last_used
undated-after_auth env (aborts reply) keys = refl
undated-after_auth env (passes k) keys = elim (Bool-cases env.touch_fails) [
  | inl fails ↦ rw fails refl
  | inr works ↦ rw works (undated-touched env.touched_at k.id keys)
]

-- The request, if it gets in, does not run as `t`.
abbrev pub NotAs : ℕ → Server → GateEnv → Bytes → State → Type 0
NotAs t sv env header st =
    (k : ApiKey) (h : Option LimitHeaders) (b : Buckets)
    → api_gate sv.crypto sv.limits env header st.keys st.buckets ≡ (enters k h, b)
    → (k.tenant_id == t) ≡ false

pub api-IsUntouched :
    (t : ℕ) (sv : Server) (env : GateEnv) (header : Bytes) (call : ApiCall) (st : State)
    → NotAs t sv env header st
    → IsUntouched t (api sv env header call st).1 st
unfolding api
api-IsUntouched t sv env header call st other =
    let o = api_key_auth sv.crypto.trim_space sv.crypto.hash env.keys_fail header st.keys in
    let dated = record st { keys = after_auth env o st.keys } in
    IsUntouched-trans t _ dated st (behind_gate-IsUntouched t sv call dated _ other) (record {
      keys = undated-after_auth env o st.keys;
      rows = record { links = refl; clicks = refl };
      hooks = refl;
    })
