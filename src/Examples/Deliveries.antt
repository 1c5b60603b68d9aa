-- ===== src/Examples/Deliveries.antt =====
-- The theorems about the webhook dispatcher applied to concrete deliveries.
use go_link_shortener.Webhook.Loops.Attempts.{started-posts}
use go_link_shortener.Domain.Webhook.{subscribes_to}
use go_link_shortener.Store.Webhooks.{list_active_for_event}
use go_link_shortener.Webhook.Dispatcher.{deliver}
use go_link_shortener.Webhook.Post.{posted}
use go_link_shortener.Webhook.Loops.{
  Loops, idle, sender_gone, listening, enqueueing, resolver_gone, checks, offers, hears, resolves,
  admits, pushes, listens, resolver_exits, takes, delivers, sender_exits, fires, Steps, done, next,
  resolved_jobs, admit, fire, finish, check_quit, started,
}
use go_link_shortener.Webhook.Loops.Effects.{
  effect, total, settled_jobs, refused, abandoned, made, drops, posts,
}
use go_link_shortener.Webhook.Loops.Flow.{in_flight, Steps-in_flight}
use go_link_shortener.Webhook.Loops.Bounds.{IsWithin, started-IsWithin}
use go_link_shortener.Webhook.Loops.Shutdown.{held, closed-posts}
use go_link_shortener.Webhook.Loops.Progress.{work, own_moves, all_returned, CanMove, shutdown-ends}
use go_link_shortener.Base.{◌*◌, Option, Bytes, bytes_eq, ◌⊎◌}
use go_link_shortener.Base.{
  ◌+◌, ◌≤◌, ◌≡◌, refl, true, false, none, some, [], ◌∷◌, find, ltb, codes, ◌==◌, pos, arith,
}
use go_link_shortener.Domain.Webhook.{Webhook, link_clicked}
use go_link_shortener.Store.Webhooks.{has_id, record_success, record_failure}
use go_link_shortener.Webhook.Dispatcher.{Event, Job, Dispatcher, new_dispatcher}
use go_link_shortener.Webhook.Dispatcher.Delivery.{
  failures, failures-dead_letter, record_failure-revives,
}

abbrev hook : Webhook
hook = record {
  id = 4;
  tenant_id = 1;
  url = codes "https://hook.io";
  secret = codes "whsec_1";
  events = link_clicked ∷ [];
  active = false;
  failure_count = 10;
  disabled_at = some 99;
  created_at = 5;
}

abbrev clicked : Event
clicked = record {
  id = 1;
  event_type = link_clicked;
  tenant_id = 1;
  occurred_at = 7;
  body = codes "{}";
}

abbrev job : Job
job = record { webhook = hook; event = clicked; payload = codes "{}"; attempt = 0 }

abbrev dispatcher : Dispatcher
dispatcher = new_dispatcher 1 5 (pos 10)

failures-dead_letter_example :
    (v : Webhook) × (find (has_id 4) (failures 100 12 4 2 (hook ∷ [])) ≡ some v)
    × (v.failure_count ≡ 10 + 2)
    × (v.active ≡ ltb (10 + 2) 12)
failures-dead_letter_example = failures-dead_letter 100 12 4 1 (hook ∷ []) hook refl

record_failure-revives_example :
    (v : Webhook) × (find
        (has_id 4)
        (record_failure false 100 10 4 (record_success false 4 (hook ∷ [])).1).1
      ≡ some v)
    × (v.active ≡ true)
    × (v.disabled_at ≡ some 99)
record_failure-revives_example =
    record_failure-revives 100 10 99 (hook ∷ []) hook refl refl refl (ground arith)

-- A click event reaches a subscriber, whose first answer is 500; then the dispatcher shuts down while
-- a second event is queued.
abbrev live_hook : Webhook
live_hook = record hook { active = true; disabled_at = none; failure_count = 0 }

abbrev encoded : Event → Option Bytes
encoded e = some e.body

abbrev l0 : Loops
l0 = started (new_dispatcher 2 1 (pos 10)) 1 (live_hook ∷ [])

abbrev first_job : Job
first_job = record { webhook = live_hook; event = clicked; payload = codes "{}"; attempt = 0 }

abbrev queued : Loops
queued = record {
  dispatcher = record (new_dispatcher 2 1 (pos 10)) { jobs = first_job ∷ [] };
  offering = [];
  resolver = enqueueing [];
  senders = idle ∷ [];
  timers = [];
  firing = [];
  hooks = live_hook ∷ [];
}

queueing : Steps encoded l0 queued
unfolding started check_quit new_dispatcher resolved_jobs admit list_active_for_event subscribes_to
    bytes_eq
queueing = next (checks clicked) (
    next (offers clicked [] [] refl) (
      next (hears clicked [] refl refl) (
        next (resolves clicked false refl)
          (next (admits first_job [] refl) (next (pushes first_job [] refl) done)))))

abbrev closing : Loops
closing = record queued {
  dispatcher = record (new_dispatcher 2 1 (pos 10)) {
    quit = true;
    events = clicked ∷ [];
    jobs = first_job ∷ [];
  };
  resolver = listening;
}

abbrev closed_down : Loops
closed_down = record closing {
  dispatcher = record (new_dispatcher 2 1 (pos 10)) { quit = true };
  resolver = resolver_gone;
  senders = sender_gone ∷ [];
}

closing_down : Steps encoded closing closed_down
unfolding new_dispatcher resolved_jobs admit fire finish deliver posted list_active_for_event
    subscribes_to bytes_eq
closing_down = next (takes first_job [] [] [] refl refl) (
    next (hears clicked [] refl refl) (
      next (delivers first_job (some 500) false 100 [] [] refl) (
        next (resolves clicked false refl) (
          next (fires (record first_job { attempt = 1 }) [] [] refl) (
            next (admits first_job [] refl) (
              next (sender_exits [] [] refl refl refl)
                (next (listens refl) (next (resolver_exits refl refl refl) done))))))))

Steps-in_flight_example :
    (in_flight (λ j. j.webhook.id == 4) closed_down
        + total encoded (settled_jobs (λ j. j.webhook.id == 4)) closing_down
        + total encoded (refused (λ j. j.webhook.id == 4)) closing_down
        + total encoded (abandoned (λ j. j.webhook.id == 4)) closing_down
      ≡ in_flight (λ j. j.webhook.id == 4) closing
        + total encoded (made (λ j. j.webhook.id == 4)) closing_down)
    × (closed_down.dispatcher.dropped
        ≡ closing.dispatcher.dropped + total encoded drops closing_down)
Steps-in_flight_example =
    Steps-in_flight encoded (λ j. j.webhook.id == 4) closing_down (λ j n. refl)

started-IsWithin_example : IsWithin 2 1 queued
started-IsWithin_example = started-IsWithin encoded 2 1 1 (pos 10) (live_hook ∷ []) queued queueing

closed-posts_example :
    (closed_down.dispatcher.jobs ≡ [])
    × (total encoded (posts (λ j. j.webhook.id == 4)) closing_down
        ≡ held (λ j. j.webhook.id == 4) closing)
    × (closed_down.dispatcher.dropped ≡ closing.dispatcher.dropped)
unfolding new_dispatcher
closed-posts_example =
    closed-posts encoded (λ j. j.webhook.id == 4) closing_down
      (record {
        closed = refl;
        no_offer = refl;
        not_admitted = refl;
        not_firing = refl;
        drained = refl;
      })
      refl refl

shutdown-ends_example :
    (own_moves encoded closing_down ≤ work closing + total encoded (made (λ j. true)) closing_down)
    × ((all_returned closed_down ≡ true) ⊎ CanMove encoded closed_down)
unfolding new_dispatcher
shutdown-ends_example = shutdown-ends encoded closing_down refl

-- The event that was queued at the shutdown made a job that was abandoned, as was the retry of the
-- first job, which was posted once; none of them was counted.
queued_event-abandoned :
    (total encoded (made (λ j. true)) closing_down ≡ 1)
    × (total encoded (abandoned (λ j. true)) closing_down ≡ 2)
    × (total encoded (posts (λ j. true)) closing_down ≡ 1)
    × (closed_down.dispatcher.dropped ≡ 0)
unfolding new_dispatcher total effect resolved_jobs list_active_for_event subscribes_to bytes_eq
    posted closing_down
queued_event-abandoned = (refl, refl, refl, refl)

started-posts_example :
    total encoded (posts (λ j. j.webhook.id == 4)) queueing
    ≤ 2 * total encoded (made (λ j. j.webhook.id == 4)) queueing
started-posts_example =
    started-posts encoded 2 1 1 (pos 10) (live_hook ∷ []) (λ j. j.webhook.id == 4) queueing
      (λ j k. refl)
