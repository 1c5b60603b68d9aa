-- ===== src/Store/Webhooks.antt =====
-- The table `webhooks` (migrations/000005) and the statements of internal/repository/webhook.go.
-- The first argument of each says whether the statement fails.
use go_link_shortener.Base.{
  ℕ, suc, Bool, true, false, ◌&&◌, not, Option, none, some, List, [], ◌∷◌, ◌==◌, ltb, keep, find,
  change, any, if◌then◌else◌,
}
use go_link_shortener.Domain.Errors.{internal, not_found, Result, ok, err}
use go_link_shortener.Domain.Webhook.{Webhook, EventType, subscribes_to}
use go_link_shortener.Store.Db.{Minted}

abbrev pub Hooks : Type 0
Hooks = List Webhook

abbrev pub has_id : ℕ → Webhook → Bool
has_id id w = w.id == id

abbrev pub is_owned : ℕ → ℕ → Webhook → Bool
is_owned tenant id w = w.id == id && w.tenant_id == tenant

-- the row that INSERT makes, with the defaults of the table
unfoldable pub inserted : Minted → Webhook → Webhook
inserted m w = record w {
  id = m.id;
  active = true;
  failure_count = 0;
  disabled_at = none;
  created_at = m.at;
}

unfoldable pub create : Bool → Minted → Webhook → Hooks → Result Webhook × Hooks
unfolding inserted
create true m w hooks = (err internal, hooks)
create false m w hooks = (ok (inserted m w), inserted m w ∷ hooks)

-- ORDER BY created_at DESC
unfoldable pub insert_newest : Webhook → Hooks → Hooks
insert_newest w [] = w ∷ []
insert_newest w (v ∷ vs) =
    let rest = insert_newest w vs in if ltb w.created_at v.created_at then v ∷ rest else w ∷ v ∷ vs

unfoldable pub newest_first : Hooks → Hooks
unfolding insert_newest
newest_first [] = []
newest_first (w ∷ ws) = insert_newest w (newest_first ws)

unfoldable pub list_by_tenant : Bool → ℕ → Hooks → Result Hooks
unfolding newest_first
list_by_tenant true tenant hooks = err internal
list_by_tenant false tenant hooks = ok (newest_first (keep (λ w. w.tenant_id == tenant) hooks))

abbrev pub or_not_found : Option Webhook → Result Webhook
or_not_found none = err not_found
or_not_found (some w) = ok w

unfoldable pub get_by_id_for_tenant : Bool → ℕ → ℕ → Hooks → Result Webhook
get_by_id_for_tenant true tenant id hooks = err internal
get_by_id_for_tenant false tenant id hooks = or_not_found (find (is_owned tenant id) hooks)

unfoldable pub delete_for_tenant : Bool → ℕ → ℕ → Hooks → Result (Unit {0}) × Hooks
delete_for_tenant true tenant id hooks = (err internal, hooks)
delete_for_tenant false tenant id hooks =
    if any (is_owned tenant id) hooks
    then (ok tt, keep (λ w. not (is_owned tenant id w)) hooks)
    else (err not_found, hooks)

unfoldable pub list_active_for_event : Bool → ℕ → EventType → Hooks → Result Hooks
unfolding subscribes_to
list_active_for_event true tenant event hooks = err internal
list_active_for_event false tenant event hooks =
    ok (keep (λ w. w.tenant_id == tenant && w.active && subscribes_to w event) hooks)

unfoldable pub cleared : Webhook → Webhook
cleared w = record w { failure_count = 0 }

unfoldable pub record_success : Bool → ℕ → Hooks → Result (Unit {0}) × Hooks
unfolding cleared
record_success true id hooks = (err internal, hooks)
record_success false id hooks = (ok tt, change (has_id id) cleared hooks)

-- the row after UPDATE; `now` is the time of the database
unfoldable pub failed : ℕ → ℕ → Webhook → Webhook
failed now threshold w =
    let n = suc w.failure_count in
    record w {
      failure_count = n;
      active = ltb n threshold;
      disabled_at = if ltb n threshold then w.disabled_at else some now;
    }

reported : Option Webhook → Result Bool
reported none = err not_found
reported (some w) = ok (not w.active)

-- `RecordFailure`: whether the webhook is now disabled
unfoldable pub record_failure : Bool → ℕ → ℕ → ℕ → Hooks → Result Bool × Hooks
unfolding failed reported
record_failure true now threshold id hooks = (err internal, hooks)
record_failure false now threshold id hooks =
    let hooks' = change (has_id id) (failed now threshold) hooks in
    (reported (find (has_id id) hooks'), hooks')
