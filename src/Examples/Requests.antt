-- ===== src/Examples/Requests.antt =====
-- Requests to the handlers on concrete data, and the theorems applied to them.
use go_link_shortener.Base.{
  any, all, ◌+◌, if◌then◌else◌, ℕ, ◌≡◌, refl, true, false, none, some, List, [], ◌∷◌, ◌++◌, codes,
  pos, bytes_eq, ◌==◌, take, count, arith,
}
use go_link_shortener.Domain.Link.{Link}
use go_link_shortener.Domain.Webhook.{link_created, link_clicked}
use go_link_shortener.Store.Cache
use go_link_shortener.Store.Stats.{Sql, Window}
use go_link_shortener.Service.Redirect.Agreement.{is_negative, live_row}
use go_link_shortener.Service.Stats.{StatsFaults}
use go_link_shortener.Service.Links.{new_link_service}
use go_link_shortener.Service.Links.Changes.{UpdateLinkInput, patched}
use go_link_shortener.Service.Webhooks.{WebhookEnv, CreateWebhookInput}
use go_link_shortener.Service.Webhooks as WebhookService
use go_link_shortener.Service.Webhooks.Subscription.{SubscriptionEffect, create-SubscriptionEffect}
use go_link_shortener.Webhook.Dispatcher.{Dispatcher, new_dispatcher}
use go_link_shortener.Webhook.Notifier.{Notifier, Agg, clicks_flushed}
use go_link_shortener.Webhook.Notifier.Aggregation.{
  total_of, is_click_of, events_of, LinksDistinct, clicks_flushed-aggregates,
}
use go_link_shortener.Handler.Redirect.{RedirectRequest, RedirectEnv, redirect}
use go_link_shortener.Handler.Redirect.Serving.{IsVisit, IsRefusal, redirect-IsVisit}
use go_link_shortener.Handler.Fields.{RawFields, Json, build_update_input}
use go_link_shortener.Handler.Fields.Patch.{IsPatchedBy, build_update_input-IsPatchedBy}
use go_link_shortener.Service.Janitor.{LinkJanitor, sweep}
use go_link_shortener.Store.Links.{purge_expired}
use go_link_shortener.Examples.{warm-IsCoherent}
use go_link_shortener.Examples.Data.{hello, a_link, a_click, ttls, no_faults, cold, warm, service}

abbrev pub sql : Sql
sql = record { date_trunc = λ b t. t; collate = λ a b. false }

abbrev no_stats_faults : StatsFaults
no_stats_faults = record {
  ownership = false;
  series = false;
  total = false;
  referrers = false;
  countries = false;
  devices = false;
}

abbrev a_window : Window
a_window = record { tenant = 1; link = 7; from = 0; to = 100 }

abbrev pub a_request : RedirectRequest
a_request = record {
  code = hello;
  referrer = [];
  user_agent = codes "curl";
  client_ip = codes "10.0.0.1";
}

abbrev pub redirect_env : RedirectEnv
redirect_env = record {
  has_clicks = true;
  has_metrics = true;
  faults = no_faults;
  now = 40;
  clicked_at = 41;
}

redirect-IsVisit_example :
    if is_negative (Cache.get false 40 hello warm.redis)
    then IsRefusal redirect_env 404
        (codes "not_found")
        (redirect ttls redirect_env a_request warm).0
    else IsVisit redirect_env a_request
        (live_row hello warm.db)
        (redirect ttls redirect_env a_request warm).0
redirect-IsVisit_example = redirect-IsVisit ttls redirect_env a_request warm warm-IsCoherent refl

-- a reader of the values that the body below holds
abbrev pub json : Json
json = record {
  as_string = λ raw. some raw;
  as_int = λ raw. some (pos 301);
  as_int64 = λ raw. none;
  as_time = λ raw. none;
  trim_space = λ raw. raw;
}

abbrev body : RawFields
body =
    (codes "expires_at", codes "null")
    ∷ (codes "redirect_type", codes "301")
    ∷ (codes "url", codes "https://b.io")
    ∷ []

abbrev its_input : UpdateLinkInput
its_input = record {
  target_url = some (codes "https://b.io");
  redirect_type = some (pos 301);
  expires_at = none;
  clear_expires_at = true;
  max_clicks = none;
  clear_max_clicks = false;
}

abbrev patched_link : Link
patched_link = record a_link {
  target_url = codes "https://b.io";
  redirect_type = pos 301;
  expires_at = none;
}

build_update_input-IsPatchedBy_example : IsPatchedBy json body service 40 1 a_link patched_link
unfolding build_update_input patched bytes_eq new_link_service
build_update_input-IsPatchedBy_example =
    build_update_input-IsPatchedBy json body its_input service 40 1 a_link patched_link refl refl

abbrev hook_env : WebhookEnv
hook_env = record {
  parse_url = λ raw. some (record { scheme = codes "https"; host = codes "h.io" });
  random = some (codes "c2VjcmV0");
  minted = record { id = 4; at = 50 };
  insert_fails = false;
}

abbrev hook_input : CreateWebhookInput
hook_input = record {
  url = codes "https://h.io/x";
  events = link_clicked ∷ link_created ∷ link_clicked ∷ [];
}

create-SubscriptionEffect_example :
    SubscriptionEffect 1 hook_input [] (WebhookService.create hook_env 1 hook_input [])
create-SubscriptionEffect_example = create-SubscriptionEffect hook_env 1 hook_input []

abbrev notifier : Notifier
notifier = record {
  base_url = codes "https://s.io";
  encode = λ p. codes "{}";
  ids = λ k. 1 + k;
  times = λ k. 70 + k;
}

abbrev hooks_dispatcher : Dispatcher
hooks_dispatcher = new_dispatcher 8 5 (pos 10)

clicks_flushed-aggregates_example :
    (rows : List Agg) × ((clicks_flushed notifier
        (a_click ∷ record a_click { link_id = 8 } ∷ a_click ∷ [])
        hooks_dispatcher).events
      ≡ take 8 ([] ++ events_of notifier 0 rows))
    × LinksDistinct rows
    × (all
          (λ a.
            any
              (is_click_of a.link_id a.tenant_id)
              (a_click ∷ record a_click { link_id = 8 } ∷ a_click ∷ []))
          rows
        ≡ true)
    × ((id : ℕ)
        → total_of id rows
          ≡ count (λ c. c.link_id == id) (a_click ∷ record a_click { link_id = 8 } ∷ a_click ∷ []))
unfolding new_dispatcher
clicks_flushed-aggregates_example =
    clicks_flushed-aggregates notifier (a_click ∷ record a_click { link_id = 8 } ∷ a_click ∷ [])
      hooks_dispatcher refl (ground arith)

abbrev a_janitor : LinkJanitor
a_janitor = record { tenant_id = 1; retention = 50 }

swept_links : (sweep a_janitor false 960 cold).db.links ≡ []
unfolding sweep purge_expired
swept_links = refl

kept_links : (sweep a_janitor false 940 cold).db.links ≡ a_link ∷ []
unfolding sweep purge_expired
kept_links = refl
