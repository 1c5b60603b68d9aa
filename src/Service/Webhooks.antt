-- ===== src/Service/Webhooks.antt =====
-- internal/service/webhook.go. `url.Parse` is a parameter, as in Service.Links.
pub mod Subscription
use go_link_shortener.Base.{
  ℕ, Bool, true, false, ◌&&◌, not, Option, none, some, List, [], ◌∷◌, ◌++◌, Bytes, codes, bytes_eq,
  any, all, one_of, if◌then◌else◌,
}
use go_link_shortener.Domain.Errors.{
  Error, internal, validation, Result, ok, err, ◌>>=◌, ◌>>◌, reject_if,
}
use go_link_shortener.Domain.Webhook.{Webhook, EventType, valid, webhook_secret_prefix}
use go_link_shortener.Store.Db.{Minted}
use go_link_shortener.Store.Webhooks
use go_link_shortener.Store.Webhooks.{Hooks}
use go_link_shortener.Service.Links.{Url}

pub record CreateWebhookInput : Type 0 where
  pub url : Bytes
  pub events : List EventType

unfoldable pub validate_webhook_url : (Bytes → Option Url) → Bytes → Result (Unit {0})
unfolding bytes_eq
validate_webhook_url parse_url raw =
    if bytes_eq raw [] then err (validation "url is required") else elim (parse_url raw) [
      | none ↦ err (validation "url is not parseable")
      | some u ↦
          if not (bytes_eq u.scheme (codes "http")) && not (bytes_eq u.scheme (codes "https"))
          then err (validation "url scheme must be http or https")
          else if bytes_eq u.host []
          then err (validation "url must include a host")
          else ok tt
    ]

-- the loop; the message quotes the event in the source
all_known : List EventType → Result (Unit {0})
unfolding valid
all_known [] = ok tt
all_known (e ∷ es) =
    let rest = all_known es in if not (valid e) then err (validation "unknown event type") else rest

unfoldable pub validate_events : List EventType → Result (Unit {0})
unfolding all_known
validate_events [] = err (validation "at least one event type is required")
validate_events (e ∷ es) = all_known (e ∷ es)

-- the loop, with the events seen so far
dedupe_from : List EventType → List EventType → List EventType
dedupe_from seen [] = []
dedupe_from seen (e ∷ es) =
    let skipped = dedupe_from seen es in
    let kept = dedupe_from (e ∷ seen) es in if one_of seen e then skipped else e ∷ kept

unfoldable pub dedupe_events : List EventType → List EventType
unfolding dedupe_from
dedupe_events events = dedupe_from [] events

-- `GenerateWebhookSecret`: none if the random bytes cannot be read
unfoldable pub generated_secret : Option Bytes → Result Bytes
generated_secret none = err internal
generated_secret (some s) = ok (webhook_secret_prefix ++ s)

-- What one `Create` meets.
pub record WebhookEnv : Type 0 where
  pub parse_url : Bytes → Option Url
  pub random : Option Bytes
  pub minted : Minted
  pub insert_fails : Bool

-- the row before it is stored
new_webhook : WebhookEnv → ℕ → CreateWebhookInput → Result Webhook
unfolding validate_webhook_url validate_events dedupe_events generated_secret
new_webhook env tenant input = do
  validate_webhook_url env.parse_url input.url
  validate_events input.events
  secret ← generated_secret env.random
  ok (record {
    id = 0;
    tenant_id = tenant;
    url = input.url;
    secret = secret;
    events = dedupe_events input.events;
    active = true;
    failure_count = 0;
    disabled_at = none;
    created_at = 0;
  })

-- the plaintext secret is put back, for the response
with_secret : Bytes → Result Webhook × Hooks → Result Webhook × Hooks
with_secret secret (ok w, hooks) = (ok (record w { secret = secret }), hooks)
with_secret secret (err e, hooks) = (err e, hooks)

create_from : WebhookEnv → Hooks → Result Webhook → Result Webhook × Hooks
unfolding with_secret
create_from env hooks (err e) = (err e, hooks)
create_from env hooks (ok w) =
    with_secret w.secret (Webhooks.create env.insert_fails env.minted w hooks)

unfoldable pub create : WebhookEnv → ℕ → CreateWebhookInput → Hooks → Result Webhook × Hooks
unfolding create_from new_webhook
create env tenant input hooks = create_from env hooks (new_webhook env tenant input)

unfoldable pub list : Bool → ℕ → Hooks → Result Hooks
list fault tenant hooks = Webhooks.list_by_tenant fault tenant hooks

unfoldable pub delete : Bool → ℕ → ℕ → Hooks → Result (Unit {0}) × Hooks
delete fault tenant id hooks = Webhooks.delete_for_tenant fault tenant id hooks
