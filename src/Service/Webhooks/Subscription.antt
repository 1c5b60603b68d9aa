-- ===== src/Service/Webhooks/Subscription.antt =====
-- What a created webhook is subscribed to.
use go_link_shortener.Base.{
  ℕ, ◌≡◌, refl, ap, ◌∙◌, Bool, true, false, ◌||◌, List, [], ◌∷◌, Bytes, bytes_eq, bytes_eq_iff,
  bytes_eq_refl, any, all, one_of, arith,
}
use go_link_shortener.Domain.Errors.{Result, ok, err}
use go_link_shortener.Domain.Webhook.{Webhook, EventType, valid, subscribes_to}
use go_link_shortener.Store.Webhooks
use go_link_shortener.Store.Webhooks.{Hooks}
use go_link_shortener.Service.Webhooks.{
  CreateWebhookInput, all_known, validate_events, dedupe_from, dedupe_events, WebhookEnv,
  new_webhook, with_secret, create_from, create,
}

abbrev pub IsDistinct : List EventType → Type 0
IsDistinct [] = Unit
IsDistinct (e ∷ es) = (one_of es e ≡ false) × IsDistinct es

dedupe_from-unseen :
    (seen es : List EventType) (e : EventType)
    → one_of seen e ≡ true
    → one_of (dedupe_from seen es) e ≡ false
unfolding dedupe_from
dedupe_from-unseen seen [] e h = refl
dedupe_from-unseen seen (x ∷ es) e h =
    ground
      (arith, dedupe_from-unseen seen es e, dedupe_from-unseen (x ∷ seen) es e, bytes_eq_iff e x)

dedupe_from-IsDistinct : (seen es : List EventType) → IsDistinct (dedupe_from seen es)
unfolding dedupe_from
dedupe_from-IsDistinct seen [] = tt
dedupe_from-IsDistinct seen (e ∷ es) = ground (
  arith,
  dedupe_from-IsDistinct seen es,
  dedupe_from-IsDistinct (e ∷ seen) es,
  dedupe_from-unseen (e ∷ seen) es e,
  bytes_eq_refl e,
)

dedupe_from-one_of :
    (seen es : List EventType) (t : EventType)
    → (one_of seen t || one_of (dedupe_from seen es) t) ≡ (one_of seen t || one_of es t)
unfolding dedupe_from
dedupe_from-one_of seen [] t = refl
dedupe_from-one_of seen (e ∷ es) t =
    ground
      (arith, dedupe_from-one_of seen es t, dedupe_from-one_of (e ∷ seen) es t, bytes_eq_iff t e)

all_known-valid : (es : List EventType) → all_known es ≡ ok tt → all valid es ≡ true
unfolding all_known
all_known-valid [] h = refl
all_known-valid (e ∷ es) h = ground (arith, all_known-valid es)

validate_events-valid : (es : List EventType) → validate_events es ≡ ok tt → all valid es ≡ true
unfolding validate_events
validate_events-valid [] h = refl
validate_events-valid (e ∷ es) h = all_known-valid (e ∷ es) h

dedupe_from-valid :
    (seen es : List EventType) → all valid es ≡ true → all valid (dedupe_from seen es) ≡ true
unfolding dedupe_from
dedupe_from-valid seen [] h = refl
dedupe_from-valid seen (e ∷ es) h =
    ground (arith, dedupe_from-valid seen es, dedupe_from-valid (e ∷ seen) es)

bytes_eq_sym : (a b : Bytes) → bytes_eq a b ≡ bytes_eq b a
bytes_eq_sym a b = ground (arith, bytes_eq_iff a b, bytes_eq_iff b a)

any-one_of : (es : List EventType) (t : EventType) → any (λ e. bytes_eq e t) es ≡ one_of es t
any-one_of [] t = refl
any-one_of (e ∷ es) t = ground (arith, bytes_eq_sym e t, any-one_of es t)

-- `w` is active, belongs to the tenant, and is subscribed to the requested events, once each.
pub record IsSubscription (tenant : ℕ) (input : CreateWebhookInput) (w : Webhook) : Type 0 where
  pub tenant_id : w.tenant_id ≡ tenant
  pub url : w.url ≡ input.url
  pub active : w.active ≡ true
  pub failure_count : w.failure_count ≡ 0
  pub known : all valid w.events ≡ true
  pub distinct : IsDistinct w.events
  pub subscribed : (t : EventType) → subscribes_to w t ≡ one_of input.events t

abbrev pub SubscriptionEffect : ℕ → CreateWebhookInput → Hooks → Result Webhook × Hooks → Type 0
SubscriptionEffect tenant input hooks (ok w, hooks') =
    IsSubscription tenant input w × (hooks' ≡ w ∷ hooks)
SubscriptionEffect tenant input hooks (err e, hooks') = hooks' ≡ hooks

new_webhook-ok :
    (env : WebhookEnv) (tenant : ℕ) (input : CreateWebhookInput) (w : Webhook)
    → new_webhook env tenant input ≡ ok w
    → (validate_events input.events ≡ ok tt)
      × (w.tenant_id ≡ tenant)
      × (w.url ≡ input.url)
      × (w.active ≡ true)
      × (w.failure_count ≡ 0)
      × (w.events ≡ dedupe_from [] input.events)
unfolding new_webhook dedupe_events
new_webhook-ok env tenant input w h = ground arith

new_webhook-IsSubscription :
    (env : WebhookEnv) (tenant : ℕ) (input : CreateWebhookInput) (w : Webhook)
    → new_webhook env tenant input ≡ ok w
    → IsSubscription tenant input w
unfolding subscribes_to
new_webhook-IsSubscription env tenant input w h =
    let (checked, tenant_id, url, active, failures, events) = new_webhook-ok env tenant input w h in
    record {
      tenant_id = tenant_id;
      url = url;
      active = active;
      failure_count = failures;
      known =
          rw events
            (dedupe_from-valid [] input.events (validate_events-valid input.events checked));
      distinct = rw events (dedupe_from-IsDistinct [] input.events);
      subscribed = λ t.
          any-one_of w.events t
          ∙ ap (λ es. one_of es t) events
          ∙ dedupe_from-one_of [] input.events t;
    }

create_from-SubscriptionEffect :
    (env : WebhookEnv) (tenant : ℕ) (input : CreateWebhookInput) (hooks : Hooks)
    (r : Result Webhook)
    → ((w : Webhook) → r ≡ ok w → IsSubscription tenant input w)
    → SubscriptionEffect tenant input hooks (create_from env hooks r)
unfolding create_from with_secret Webhooks.create Webhooks.inserted subscribes_to
create_from-SubscriptionEffect env tenant input hooks (err e) h = refl
create_from-SubscriptionEffect env tenant input hooks (ok w) h = go env.insert_fails
  where
    go :
        (fault : Bool)
        → SubscriptionEffect tenant input hooks
            (with_secret w.secret (Webhooks.create fault env.minted w hooks))
    go true = refl
    go false =
        let s = h w refl in
        (
          record {
            tenant_id = s.tenant_id;
            url = s.url;
            active = refl;
            failure_count = refl;
            known = s.known;
            distinct = s.distinct;
            subscribed = s.subscribed;
          },
          refl,
        )

-- Registering a webhook is all or nothing. On success one row is added: the returned webhook, active,
-- of the tenant, without failures, whose events are known, distinct, and exactly the requested ones.
-- On any error the table is as before.
pub create-SubscriptionEffect :
    (env : WebhookEnv) (tenant : ℕ) (input : CreateWebhookInput) (hooks : Hooks)
    → SubscriptionEffect tenant input hooks (create env tenant input hooks)
unfolding create
create-SubscriptionEffect env tenant input hooks =
    create_from-SubscriptionEffect env tenant input hooks (new_webhook env tenant input)
      (λ w. new_webhook-IsSubscription env tenant input w)
