-- ===== src/Webhook/Dispatcher/Delivery.antt =====
-- How a delivery ends, and the consecutive failures of a webhook.
use go_link_shortener.Base.{
  find-change, find-holds, find, ℕ, zero, suc, ◌+◌, ◌≡◌, ◌<◌, refl, ap, sym, ◌∙◌, Bool, true, false,
  some, [], ◌∷◌, ltb, change, if◌then◌else◌, arith,
}
use go_link_shortener.Domain.Webhook.{Webhook}
use go_link_shortener.Store.Webhooks.{
  Hooks, has_id, cleared, failed, record_success, record_failure,
}
use go_link_shortener.Webhook.Dispatcher.{Dispatcher}

-- whether one of `n` attempts from `k` on succeeds
unfoldable pub succeeds : (ℕ → Bool) → ℕ → ℕ → Bool
succeeds posts k zero = false
succeeds posts k (suc n) = if posts k then true else succeeds posts (suc k) n

-- `n` deliveries in a row that fail for good
unfoldable pub failures : ℕ → ℕ → ℕ → ℕ → Hooks → Hooks
failures now threshold id zero hooks = hooks
failures now threshold id (suc n) hooks =
    failures now threshold id n (record_failure false now threshold id hooks).1

abbrev times_failed : ℕ → ℕ → ℕ → Webhook → Webhook
times_failed now threshold zero w = w
times_failed now threshold (suc n) w = times_failed now threshold n (failed now threshold w)

times_failed-last :
    (now threshold n : ℕ) (w : Webhook)
    → ((times_failed now threshold (suc n) w).failure_count ≡ w.failure_count + suc n)
      × ((times_failed now threshold (suc n) w).active ≡ ltb (w.failure_count + suc n) threshold)
unfolding failed
times_failed-last now threshold zero w = ground arith
times_failed-last now threshold (suc n) w =
    ground (arith, times_failed-last now threshold n (failed now threshold w))

failures-change :
    (now threshold id n : ℕ) (hooks : Hooks)
    → failures now threshold id n hooks ≡ change (has_id id) (times_failed now threshold n) hooks
unfolding failures record_failure failed
failures-change now threshold id zero hooks = sym (change_same hooks)
  where
    change_same : (ws : Hooks) → change (has_id id) (λ w. w) ws ≡ ws
    change_same [] = refl
    change_same (w ∷ ws) = ground (arith, change_same ws)
failures-change now threshold id (suc n) hooks = failures-change now threshold id n _ ∙ again hooks
  where
    again :
        (ws : Hooks)
        → change
            (has_id id)
            (times_failed now threshold n)
            (change (has_id id) (failed now threshold) ws)
          ≡ change (has_id id) (times_failed now threshold (suc n)) ws
    again [] = refl
    again (w ∷ ws) = ground (arith, again ws)

has_id-failed :
    (now threshold id n : ℕ) (w : Webhook)
    → has_id id (times_failed now threshold n w) ≡ has_id id w
unfolding failed
has_id-failed now threshold id zero w = refl
has_id-failed now threshold id (suc n) w =
    has_id-failed now threshold id n (failed now threshold w) ∙ refl

-- The row that an update by id finds again.
find-changed :
    (id : ℕ) (f : Webhook → Webhook) (hooks : Hooks) (w : Webhook)
    → ((v : Webhook) → has_id id (f v) ≡ has_id id v)
    → find (has_id id) hooks ≡ some w
    → find (has_id id) (change (has_id id) f hooks) ≡ some (f w)
find-changed id f hooks w same found =
    find-change (has_id id) f (has_id id) same hooks w found
    ∙ ap (λ b. some (if b then f w else w)) (find-holds (has_id id) hooks w found)

-- After `n + 1` failed deliveries in a row, the counter of a webhook has grown by `n + 1`, and the
-- webhook is active exactly while the counter is below the threshold.
pub failures-dead_letter :
    (now threshold id n : ℕ) (hooks : Hooks) (w : Webhook)
    → find (has_id id) hooks ≡ some w
    → (v : Webhook) × (find (has_id id) (failures now threshold id (suc n) hooks) ≡ some v)
      × (v.failure_count ≡ w.failure_count + suc n)
      × (v.active ≡ ltb (w.failure_count + suc n) threshold)
failures-dead_letter now threshold id n hooks w found =
    let (counted, live) = times_failed-last now threshold n w in
    (
      times_failed now threshold (suc n) w,
      ap (find (has_id id)) (failures-change now threshold id (suc n) hooks)
          ∙ find-changed id (times_failed now threshold (suc n)) hooks w
              (has_id-failed now threshold id (suc n)) found,
      counted,
      live,
    )

-- A delivery that succeeds and one that then fails for good make a dead-lettered webhook active
-- again, if the threshold is above 1, although it still has its `disabled_at`.
pub record_failure-revives :
    (now threshold t : ℕ) (hooks : Hooks) (w : Webhook)
    → find (has_id w.id) hooks ≡ some w
    → w.active ≡ false
    → w.disabled_at ≡ some t
    → 1 < threshold
    → (v : Webhook) × (find
          (has_id w.id)
          (record_failure false now threshold w.id (record_success false w.id hooks).1).1
        ≡ some v)
      × (v.active ≡ true)
      × (v.disabled_at ≡ some t)
unfolding record_failure record_success failed cleared
record_failure-revives now threshold t hooks w found dead disabled above = (
  failed now threshold (cleared w),
  find-changed w.id (failed now threshold) (change (has_id w.id) cleared hooks) (cleared w)
      (λ v. refl) (find-changed w.id cleared hooks w (λ v. refl) found),
  ground arith,
  ground arith,
)
