-- ===== src/Webhook/Dispatcher/Fanout.antt =====
-- Which jobs an event leads to.
use go_link_shortener.Base.{
  take-full, append-cons, append_nil, suc, ◌+◌, ◌≡◌, ◌≤◌, ap, ◌∙◌, false, List, [], ◌∷◌, ◌++◌, map,
  take, take_all, sym, Bytes, length, ltb, arith, length-append, Bool-cases, inl, inr,
}
use go_link_shortener.Domain.Webhook.{Webhook}
use go_link_shortener.Store.Webhooks.{Hooks}
use go_link_shortener.Webhook.Dispatcher.{Event, Job, Dispatcher, enqueue_job, fan_out}

abbrev pub first : Event → Bytes → Webhook → Job
first e payload w = record { webhook = w; event = e; payload = payload; attempt = 0 }

abbrev pub first_attempts : Event → Bytes → Hooks → List Job
first_attempts e payload hooks = map (first e payload) hooks

-- While the dispatcher runs, an event adds one first attempt for each subscriber to the queue, in
-- order, until the queue is full; the jobs that find no room are counted as dropped.
pub fan_out-take :
    (e : Event) (payload : Bytes) (hooks : Hooks) (d : Dispatcher)
    → d.quit ≡ false
    → length d.jobs ≤ d.queue_size
    → ((fan_out e payload hooks d).jobs
        ≡ take d.queue_size (d.jobs ++ first_attempts e payload hooks))
      × ((fan_out e payload hooks d).dropped + length (fan_out e payload hooks d).jobs
          ≡ d.dropped + length d.jobs + length hooks)
unfolding fan_out enqueue_job
fan_out-take e payload [] d running room = (
  sym (ap (take d.queue_size) (append_nil d.jobs) ∙ take_all d.queue_size d.jobs (omega arith)),
  omega arith,
)
fan_out-take e payload (w ∷ ws) d running room =
    elim (Bool-cases (ltb (length d.jobs) d.queue_size)) [
      | inl free ↦ ground (
        arith,
        append-cons d.jobs (first_attempts e payload ws) (first e payload w),
        length-append d.jobs (first e payload w ∷ []),
        fan_out-take e payload ws (record d { jobs = d.jobs ++ (first e payload w ∷ []) }),
      )
      | inr full ↦ ground (
        arith,
        take-full d.queue_size d.jobs (first_attempts e payload ws),
        take-full d.queue_size d.jobs (first_attempts e payload (w ∷ ws)),
        fan_out-take e payload ws (record d { dropped = suc d.dropped }),
      )
    ]
