-- ===== src/Handler/Webhooks.antt =====
-- The handlers of internal/handler/webhook.go.
pub mod Writes
use go_link_shortener.Base.{
  ℕ, Bool, true, false, Option, none, some, List, Bytes, codes, map, length,
}
use go_link_shortener.Domain.Errors.{Result, ok, err}
use go_link_shortener.Domain.Webhook.{Webhook}
use go_link_shortener.Http.{
  Reply, json, webhook_body, webhooks_body, no_body, respond_error, respond_validation,
}
use go_link_shortener.Http.Views.{to_webhook_response}
use go_link_shortener.Store.Webhooks.{Hooks}
use go_link_shortener.Service.Webhooks
use go_link_shortener.Service.Webhooks.{WebhookEnv, CreateWebhookInput}
use go_link_shortener.Handler.Request.{Decoder, CreateWebhookRequest, with_id}

created : Result Webhook × Hooks → Reply × Hooks
unfolding to_webhook_response respond_error
created (ok w, hooks) = (json 201 (webhook_body (to_webhook_response w true)), hooks)
created (err e, hooks) = (respond_error e, hooks)

create_bound : WebhookEnv → ℕ → Option CreateWebhookRequest → Hooks → Reply × Hooks
unfolding created
create_bound env tenant none hooks =
    (respond_validation (codes "request body must be valid JSON"), hooks)
create_bound env tenant (some req) hooks =
    created (Webhooks.create env tenant (record { url = req.url; events = req.events }) hooks)

unfoldable pub create : Decoder → WebhookEnv → ℕ → Bytes → Hooks → Reply × Hooks
unfolding create_bound
create d env tenant body hooks = create_bound env tenant (d.bind_webhook body) hooks

listed : Result Hooks → Reply
unfolding to_webhook_response respond_error
listed (err e) = respond_error e
listed (ok hooks) =
    json 200 (webhooks_body (map (λ w. to_webhook_response w false) hooks) (length hooks))

unfoldable pub list : Bool → ℕ → Hooks → Reply
unfolding listed
list fault tenant hooks = listed (Webhooks.list fault tenant hooks)

deleted : Result (Unit {0}) × Hooks → Reply × Hooks
unfolding respond_error
deleted (ok u, hooks) = (json 204 no_body, hooks)
deleted (err e, hooks) = (respond_error e, hooks)

unfoldable pub delete : Decoder → Bool → ℕ → Bytes → Hooks → Reply × Hooks
unfolding deleted with_id
delete d fault tenant param hooks =
    with_id d param (λ reply. (reply, hooks)) λ id. deleted (Webhooks.delete fault tenant id hooks)
