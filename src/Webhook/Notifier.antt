-- ===== src/Webhook/Notifier.antt =====
-- internal/webhook/notifier.go. `encode` writes the data of an event as JSON. The order in which Go
-- ranges over the map of links is unspecified: here it is the order of first clicks.
pub mod Aggregation
use go_link_shortener.Base.{
  suc, ℕ, ◌+◌, Bool, true, false, List, [], ◌∷◌, ◌++◌, Bytes, codes, ◌==◌, if◌then◌else◌,
}
use go_link_shortener.Domain.Link.{Link}
use go_link_shortener.Domain.Webhook.{link_created, link_clicked}
use go_link_shortener.Store.Db.{Click}
use go_link_shortener.Webhook.Dispatcher.{Event, Dispatcher, dispatch}

-- the data of an event
pub data Payload : Type 0 where
  created_link : ℕ → Bytes → Bytes → Bytes → ℕ → Payload
  clicked_link : ℕ → ℕ → Payload

-- `ids k` and `times k` are what `Dispatch` stamps the k-th event of one call of the notifier with.
pub record Notifier : Type 0 where
  pub base_url : Bytes
  pub encode : Payload → Bytes
  pub ids : ℕ → ℕ
  pub times : ℕ → ℕ

unfoldable pub link_created_event : Notifier → Link → Event
link_created_event n l = record {
  id = n.ids 0;
  event_type = link_created;
  tenant_id = l.tenant_id;
  occurred_at = n.times 0;
  body =
      n.encode
        (created_link l.id l.code (n.base_url ++ codes "/" ++ l.code) l.target_url l.created_at);
}

unfoldable pub notify_created : Notifier → Link → Dispatcher → Dispatcher
unfolding link_created_event dispatch
notify_created n l d = (dispatch (link_created_event n l) d).1

-- `byLink[linkID]`
pub record Agg : Type 0 where
  pub link_id : ℕ
  pub tenant_id : ℕ
  pub total : ℕ

unfoldable pub add_click : Click → List Agg → List Agg
add_click c [] = record { link_id = c.link_id; tenant_id = c.tenant_id; total = 1 } ∷ []
add_click c (a ∷ rows) =
    let rest = add_click c rows in
    if a.link_id == c.link_id then record a { total = a.total + 1 } ∷ rows else a ∷ rest

unfoldable pub aggregate_from : List Agg → List Click → List Agg
unfolding add_click
aggregate_from by_link [] = by_link
aggregate_from by_link (c ∷ cs) = aggregate_from (add_click c by_link) cs

unfoldable pub clicked_event : Notifier → ℕ → Agg → Event
clicked_event n k a = record {
  id = n.ids k;
  event_type = link_clicked;
  tenant_id = a.tenant_id;
  occurred_at = n.times k;
  body = n.encode (clicked_link a.link_id a.total);
}

unfoldable pub dispatch_all : Notifier → ℕ → List Agg → Dispatcher → Dispatcher
unfolding clicked_event dispatch
dispatch_all n k [] d = d
dispatch_all n k (a ∷ rows) d = dispatch_all n (suc k) rows (dispatch (clicked_event n k a) d).1

unfoldable pub clicks_flushed : Notifier → List Click → Dispatcher → Dispatcher
unfolding aggregate_from dispatch_all
clicks_flushed n [] d = d
clicks_flushed n (c ∷ cs) d = dispatch_all n 0 (aggregate_from [] (c ∷ cs)) d
