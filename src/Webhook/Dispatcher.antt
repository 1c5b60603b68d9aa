-- ===== src/Webhook/Dispatcher.antt =====
-- internal/webhook/dispatcher.go: the two bounded queues, the fan-out of an event to its
-- subscribers, and the delivery of a job. The HTTP exchange of `post` and `json.Marshal` are
-- parameters; a goroutine's move is a function on the dispatcher.
pub mod Delivery
pub mod Fanout
use go_link_shortener.Base.{
  ℕ, zero, suc, Bool, true, false, Option, none, some, List, [], ◌∷◌, ◌++◌, Bytes, length, ltb, leb,
  ℤ, pos, negsuc, ltb_ℤ, if◌then◌else◌,
}
use go_link_shortener.Domain.Errors.{Result, ok, err}
use go_link_shortener.Domain.Webhook.{Webhook, EventType}
use go_link_shortener.Store.Webhooks.{Hooks, list_active_for_event, record_success, record_failure}

-- internal/domain/event.go; `body` is the JSON object `data`
pub record Event : Type 0 where
  pub id : ℕ
  pub event_type : EventType
  pub tenant_id : ℕ
  pub occurred_at : ℕ
  pub body : Bytes

pub record Job : Type 0 where
  pub webhook : Webhook
  pub event : Event
  pub payload : Bytes
  pub attempt : ℕ

pub record Dispatcher : Type 0 where
  pub queue_size : ℕ
  pub max_retries : ℕ
  pub disable_threshold : ℕ
  pub quit : Bool
  pub events : List Event
  pub jobs : List Job
  pub dropped : ℕ

-- DisableAfter below 1 means 10.
unfoldable pub disable_threshold_of : ℤ → ℕ
disable_threshold_of (pos n) = if ltb n 1 then 10 else n
disable_threshold_of (negsuc n) = 10

unfoldable pub new_dispatcher : ℕ → ℕ → ℤ → Dispatcher
unfolding disable_threshold_of
new_dispatcher queue_size max_retries disable_after = record {
  queue_size = queue_size;
  max_retries = max_retries;
  disable_threshold = disable_threshold_of disable_after;
  quit = false;
  events = [];
  jobs = [];
  dropped = 0;
}

-- The second select of Dispatch, when no receiver waits at a channel of size 0: the hand-over to one
-- that does is a move of Loops.Step, for this select and for that of enqueueJob.
abbrev pub offer : Event → Dispatcher → Bool × Dispatcher
offer e d =
    if ltb (length d.events) d.queue_size
    then (true, record d { events = d.events ++ (e ∷ []) })
    else (false, record d { dropped = suc d.dropped })

-- the two selects of Dispatch, for an event with its id and time
unfoldable pub dispatch : Event → Dispatcher → Bool × Dispatcher
dispatch e d = if d.quit then (false, d) else offer e d

-- the second select of enqueueJob
abbrev pub push_job : Job → Dispatcher → Dispatcher
push_job j d =
    if ltb (length d.jobs) d.queue_size
    then record d { jobs = d.jobs ++ (j ∷ []) }
    else record d { dropped = suc d.dropped }

unfoldable pub enqueue_job : Job → Dispatcher → Dispatcher
enqueue_job j d = if d.quit then d else push_job j d

-- the loop over the subscribers
unfoldable pub fan_out : Event → Bytes → Hooks → Dispatcher → Dispatcher
unfolding enqueue_job
fan_out e payload [] d = d
fan_out e payload (w ∷ ws) d =
    fan_out e payload ws
      (enqueue_job (record { webhook = w; event = e; payload = payload; attempt = 0 }) d)

unfoldable pub resolved : (Event → Option Bytes) → Event → Result Hooks → Dispatcher → Dispatcher
unfolding fan_out
resolved marshal e (err x) d = d
resolved marshal e (ok []) d = d
resolved marshal e (ok (w ∷ ws)) d = elim (marshal e) [
  | none ↦ d
  | some payload ↦ fan_out e payload (w ∷ ws) d
]

unfoldable pub resolve : (Event → Option Bytes) → Bool → Event → Hooks → Dispatcher → Dispatcher
unfolding resolved list_active_for_event
resolve marshal fault e hooks d =
    resolved marshal e (list_active_for_event fault e.tenant_id e.event_type hooks) d

-- What is left of a delivery: nothing, or a job that a timer will enqueue.
pub data Next : Type 0 where
  settled : Next
  retries : Job → Next

-- `post` succeeded or not; `fault` says whether the bookkeeping statement fails.
unfoldable pub deliver : Dispatcher → Bool → Bool → ℕ → Job → Hooks → Next × Hooks
unfolding record_success record_failure
deliver d posted fault now j hooks =
    if posted
    then (settled, (record_success fault j.webhook.id hooks).1)
    else if ltb j.attempt d.max_retries
    then (retries (record j { attempt = suc j.attempt }), hooks)
    else (settled, (record_failure fault now d.disable_threshold j.webhook.id hooks).1)

-- A job and its retries, when no queue is full and the dispatcher keeps running: `posts k` is the
-- result of attempt `k`. No result when the fuel is gone.
unfoldable pub pursue : Dispatcher → (ℕ → Bool) → ℕ → ℕ → Job → Hooks → Option Hooks
unfolding deliver
pursue d posts now zero j hooks = none
pursue d posts now (suc fuel) j hooks =
    let (next, hooks') = deliver d (posts j.attempt) false now j hooks in
    elim next [ settled ↦ some hooks' | retries j' ↦ pursue d posts now fuel j' hooks' ]
