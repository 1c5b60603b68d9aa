-- ===== src/Domain/Webhook.antt =====
-- internal/domain/event.go. An event type is Go's string, so an unknown one can be written.
use go_link_shortener.Base.{ℕ, Bool, ◌||◌, Option, List, Bytes, codes, bytes_eq, any}

abbrev pub EventType : Type 0
EventType = Bytes

abbrev pub link_created : EventType
link_created = codes "link.created"

abbrev pub link_clicked : EventType
link_clicked = codes "link.clicked"

unfoldable pub valid : EventType → Bool
unfolding bytes_eq
valid t = bytes_eq t link_created || bytes_eq t link_clicked

-- the head of a generated secret
abbrev pub webhook_secret_prefix : Bytes
webhook_secret_prefix = codes "whsec_"

pub record Webhook : Type 0 where
  pub id : ℕ
  pub tenant_id : ℕ
  pub url : Bytes
  pub secret : Bytes
  pub events : List EventType
  pub active : Bool
  pub failure_count : ℕ
  pub disabled_at : Option ℕ
  pub created_at : ℕ

unfoldable pub subscribes_to : Webhook → EventType → Bool
subscribes_to w t = any (λ e. bytes_eq e t) w.events
