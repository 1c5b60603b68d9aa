-- ===== src/Webhook/Loops.antt =====
-- The concurrent part of internal/webhook/dispatcher.go: callers of `Dispatch`, the resolver, the
-- senders, the timers of the retries, and `Shutdown`. `Dispatch` and `enqueueJob` are two selects
-- each, and a goroutine can pause between them. What one call does is in Dispatcher and Post.
pub mod Effects
pub mod Flow
pub mod Bounds
pub mod Shutdown
pub mod Progress
pub mod Attempts
pub mod Sequential
use go_link_shortener.Base.{
  ℕ, zero, suc, ◌≡◌, Bool, true, false, Option, none, some, List, [], ◌∷◌, ◌++◌, Bytes, length, ltb,
  if◌then◌else◌,
}
use go_link_shortener.Domain.Errors.{Result, ok, err}
use go_link_shortener.Domain.Webhook.{Webhook}
use go_link_shortener.Store.Webhooks.{Hooks, list_active_for_event}
use go_link_shortener.Webhook.Dispatcher.{
  Event, Job, Dispatcher, offer, push_job, Next, settled, retries, deliver,
}
use go_link_shortener.Webhook.Post.{posted}

-- where the goroutine of resolveLoop is: in its select, in `resolve` before the subscribers are
-- known, in the loop over the jobs, between the two selects of enqueueJob, or gone
pub data Resolver : Type 0 where
  listening : Resolver
  resolving : Event → Resolver
  enqueueing : List Job → Resolver
  admitted : Job → List Job → Resolver
  resolver_gone : Resolver

-- where a goroutine of sendLoop is
pub data Sender : Type 0 where
  idle : Sender
  delivering : Job → Sender
  sender_gone : Sender

-- `offering` are the events of callers between the two selects of Dispatch, `timers` the retries that
-- are scheduled, `firing` the retries between the two selects of enqueueJob, `hooks` the table.
pub record Loops : Type 0 where
  pub dispatcher : Dispatcher
  pub offering : List Event
  pub resolver : Resolver
  pub senders : List Sender
  pub timers : List Job
  pub firing : List Job
  pub hooks : Hooks

abbrev pub idle_senders : ℕ → List Sender
idle_senders zero = []
idle_senders (suc n) = idle ∷ idle_senders n

-- Start, with `n` senders
unfoldable pub started : Dispatcher → ℕ → Hooks → Loops
started d n hooks = record {
  dispatcher = d;
  offering = [];
  resolver = listening;
  senders = idle_senders n;
  timers = [];
  firing = [];
  hooks = hooks;
}

-- the job for each subscriber
unfoldable pub first_jobs : Event → Bytes → Hooks → List Job
first_jobs e payload [] = []
first_jobs e payload (w ∷ ws) =
    record { webhook = w; event = e; payload = payload; attempt = 0 } ∷ first_jobs e payload ws

abbrev pub jobs_of : (Event → Option Bytes) → Event → Result Hooks → List Job
jobs_of marshal e (err x) = []
jobs_of marshal e (ok hooks) = elim (marshal e) [
  | none ↦ []
  | some payload ↦ first_jobs e payload hooks
]

-- the jobs that `resolve` passes to enqueueJob
unfoldable pub resolved_jobs : (Event → Option Bytes) → Bool → Event → Hooks → List Job
unfolding first_jobs list_active_for_event
resolved_jobs marshal fault e hooks =
    jobs_of marshal e (list_active_for_event fault e.tenant_id e.event_type hooks)

-- the first select of Dispatch
unfoldable pub check_quit : Event → Loops → Loops
check_quit e p = if p.dispatcher.quit then p else record p { offering = e ∷ p.offering }

-- the first select of enqueueJob, in the resolver
unfoldable pub admit : Job → List Job → Loops → Loops
admit j js p = record p { resolver = if p.dispatcher.quit then enqueueing js else admitted j js }

-- the first select of enqueueJob, in the function of a timer
unfoldable pub fire : Job → List Job → Loops → Loops
fire j others p =
    if p.dispatcher.quit
    then record p { timers = others }
    else record p { timers = others; firing = j ∷ p.firing }

-- A retry becomes a timer.
abbrev pub scheduled : Next → List Job → List Job
scheduled settled timers = timers
scheduled (retries j) timers = j ∷ timers

-- the rest of sendLoop's body, once `post` has its answer
unfoldable pub finish : Option ℕ → Bool → ℕ → Job → List Sender → List Sender → Loops → Loops
unfolding deliver posted
finish answer fault now j before after p =
    let (next, hooks) = deliver p.dispatcher (posted answer) fault now j p.hooks in
    record p { senders = before ++ (idle ∷ after); timers = scheduled next p.timers; hooks = hooks }

-- One move of a caller, of the resolver, of a sender, of a timer, of Shutdown or of another user of
-- the table. `answer` is what the HTTP client returned. A channel of size 0 hands an event or a job
-- over, if its receiver waits: `hands_event`, `hands_job` and `hands_retry`. A receiver that waits leaves
-- its select when `quit` is closed.
module _ (marshal : Event → Option Bytes) where
  pub data Step (p : Loops) : Loops → Type 0 where
    checks : (e : Event) → Step p (check_quit e p)
    offers :
        (e : Event) (before after : List Event)
        → p.offering ≡ before ++ (e ∷ after)
        → Step p (record p { offering = before ++ after; dispatcher = (offer e p.dispatcher).1 })
    hears :
        (e : Event) (rest : List Event)
        → p.resolver ≡ listening
        → p.dispatcher.events ≡ e ∷ rest
        → Step p (record p {
          resolver = resolving e;
          dispatcher = record p.dispatcher { events = rest };
        })
    resolves :
        (e : Event) (fault : Bool)
        → p.resolver ≡ resolving e
        → Step p (record p { resolver = enqueueing (resolved_jobs marshal fault e p.hooks) })
    admits : (j : Job) (js : List Job) → p.resolver ≡ enqueueing (j ∷ js) → Step p (admit j js p)
    pushes :
        (j : Job) (js : List Job)
        → p.resolver ≡ admitted j js
        → Step p (record p { resolver = enqueueing js; dispatcher = push_job j p.dispatcher })
    listens : p.resolver ≡ enqueueing [] → Step p (record p { resolver = listening })
    resolver_exits :
        p.dispatcher.quit ≡ true
        → p.dispatcher.events ≡ []
        → p.resolver ≡ listening
        → Step p (record p { resolver = resolver_gone })
    takes :
        (j : Job) (rest : List Job) (before after : List Sender)
        → p.dispatcher.jobs ≡ j ∷ rest
        → p.senders ≡ before ++ (idle ∷ after)
        → Step p (record p {
          senders = before ++ (delivering j ∷ after);
          dispatcher = record p.dispatcher { jobs = rest };
        })
    delivers :
        (j : Job) (answer : Option ℕ) (fault : Bool) (now : ℕ) (before after : List Sender)
        → p.senders ≡ before ++ (delivering j ∷ after)
        → Step p (finish answer fault now j before after p)
    sender_exits :
        (before after : List Sender)
        → p.dispatcher.quit ≡ true
        → p.dispatcher.jobs ≡ []
        → p.senders ≡ before ++ (idle ∷ after)
        → Step p (record p { senders = before ++ (sender_gone ∷ after) })
    fires :
        (j : Job) (before after : List Job)
        → p.timers ≡ before ++ (j ∷ after)
        → Step p (fire j (before ++ after) p)
    retries_push :
        (j : Job) (before after : List Job)
        → p.firing ≡ before ++ (j ∷ after)
        → Step p (record p { firing = before ++ after; dispatcher = push_job j p.dispatcher })
    hands_event :
        (e : Event) (before after : List Event)
        → p.dispatcher.queue_size ≡ 0
        → p.dispatcher.quit ≡ false
        → p.offering ≡ before ++ (e ∷ after)
        → p.resolver ≡ listening
        → Step p (record p { offering = before ++ after; resolver = resolving e })
    hands_job :
        (j : Job) (js : List Job) (before after : List Sender)
        → p.dispatcher.queue_size ≡ 0
        → p.dispatcher.quit ≡ false
        → p.resolver ≡ admitted j js
        → p.senders ≡ before ++ (idle ∷ after)
        → Step p (record p { resolver = enqueueing js; senders = before ++ (delivering j ∷ after) })
    hands_retry :
        (j : Job) (others rest : List Job) (before after : List Sender)
        → p.dispatcher.queue_size ≡ 0
        → p.dispatcher.quit ≡ false
        → p.firing ≡ others ++ (j ∷ rest)
        → p.senders ≡ before ++ (idle ∷ after)
        → Step p (record p { firing = others ++ rest; senders = before ++ (delivering j ∷ after) })
    closes : Step p (record p { dispatcher = record p.dispatcher { quit = true } })
    edits : (hooks : Hooks) → Step p (record p { hooks = hooks })

  pub data Steps : Loops → Loops → Type 0 where
    done : {p : Loops} → Steps p p
    next : {p q r : Loops} → Step p q → Steps q r → Steps p r
