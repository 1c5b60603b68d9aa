-- ===== src/Handler/Webhooks/Writes.antt =====
-- What the handlers of webhooks do to the table: nothing, or one call of the service.
use go_link_shortener.Base.{ℕ, Bool, Bytes, Option, none, some}
use go_link_shortener.Domain.Errors.{Result, ok, err}
use go_link_shortener.Domain.Webhook.{Webhook}
use go_link_shortener.Http.{Reply}
use go_link_shortener.Store.Webhooks.{Hooks}
use go_link_shortener.Service.Webhooks
use go_link_shortener.Service.Webhooks.{WebhookEnv, CreateWebhookInput}
use go_link_shortener.Handler.Request.{Decoder, CreateWebhookRequest, with_id-holds}
use go_link_shortener.Handler.Webhooks.{created, create_bound, create, deleted, delete}

module _ (P : Hooks → Type 0) (tenant : ℕ) (hooks : Hooks) (kept : P hooks) where
  created-hooks : (p : Result Webhook × Hooks) → P p.1 → P (created p).1
  unfolding created
  created-hooks (ok w, hs) h = h
  created-hooks (err e, hs) h = h

  create_bound-hooks :
      (env : WebhookEnv) (req : Option CreateWebhookRequest)
      → ((input : CreateWebhookInput) → P (Webhooks.create env tenant input hooks).1)
      → P (create_bound env tenant req hooks).1
  unfolding create_bound
  create_bound-hooks env none k = kept
  create_bound-hooks env (some req) k = created-hooks _ (k _)

  pub create-hooks :
      (d : Decoder) (env : WebhookEnv) (body : Bytes)
      → ((input : CreateWebhookInput) → P (Webhooks.create env tenant input hooks).1)
      → P (create d env tenant body hooks).1
  unfolding create
  create-hooks d env body k = create_bound-hooks env _ k

  deleted-hooks : (p : Result (Unit {0}) × Hooks) → P p.1 → P (deleted p).1
  unfolding deleted
  deleted-hooks (ok u, hs) h = h
  deleted-hooks (err e, hs) h = h

  pub delete-hooks :
      (d : Decoder) (fault : Bool) (param : Bytes)
      → ((id : ℕ) → P (Webhooks.delete fault tenant id hooks).1)
      → P (delete d fault tenant param hooks).1
  unfolding delete
  delete-hooks d fault param k =
      with_id-holds (λ (p : Reply × Hooks). P p.1) d param (λ reply. (reply, hooks)) _
        (λ reply. kept) λ id. deleted-hooks _ (k id)
