-- ===== src/Http/Views.antt =====
-- The JSON shapes of links and webhooks in internal/handler/link.go and webhook.go.
use go_link_shortener.Base.{ℕ, Bool, Option, List, [], ◌++◌, Bytes, codes, ℤ, if◌then◌else◌}
use go_link_shortener.Domain.Link.{Link}
use go_link_shortener.Domain.Webhook.{Webhook, EventType}

pub record LinkResponse : Type 0 where
  pub id : ℕ
  pub code : Bytes
  pub short_url : Bytes
  pub target_url : Bytes
  pub redirect_type : ℤ
  pub expires_at : Option ℕ
  pub max_clicks : Option ℤ
  pub click_count : ℕ
  pub created_at : ℕ
  pub updated_at : ℕ

-- `base_url` has lost its trailing slashes
unfoldable pub to_response : Bytes → Link → LinkResponse
to_response base_url l = record {
  id = l.id;
  code = l.code;
  short_url = base_url ++ codes "/" ++ l.code;
  target_url = l.target_url;
  redirect_type = l.redirect_type;
  expires_at = l.expires_at;
  max_clicks = l.max_clicks;
  click_count = l.click_count;
  created_at = l.created_at;
  updated_at = l.updated_at;
}

pub record WebhookResponse : Type 0 where
  pub id : ℕ
  pub url : Bytes
  pub events : List EventType
  pub active : Bool
  pub created_at : ℕ
  pub secret : Bytes

unfoldable pub to_webhook_response : Webhook → Bool → WebhookResponse
to_webhook_response w include_secret = record {
  id = w.id;
  url = w.url;
  events = w.events;
  active = w.active;
  created_at = w.created_at;
  secret = if include_secret then w.secret else [];
}
