-- ===== src/Webhook/Loops/Bounds.antt =====
-- The bounds of the dispatcher: its two queues, and the attempts of a job.
use go_link_shortener.Base.{
  all-split, all-append, ℤ, ℕ, zero, suc, ◌≡◌, refl, Bool, true, ◌&&◌, Option, none, some, [], ◌∷◌,
  Bytes, length, length-append, leb, all, arith,
}
use go_link_shortener.Webhook.Dispatcher.{Event, Job, deliver, new_dispatcher}
use go_link_shortener.Store.Webhooks.{Hooks, list_active_for_event}
use go_link_shortener.Domain.Errors.{Result, ok, err}
use go_link_shortener.Webhook.Loops.{jobs_of}
use go_link_shortener.Webhook.Loops.{
  Loops, Sender, delivering, Resolver, enqueueing, admitted, Step, checks, offers, hears, resolves,
  admits, pushes, listens, resolver_exits, takes, delivers, sender_exits, fires, retries_push,
  hands_event, hands_job, hands_retry, closes, edits, Steps, done, next, first_jobs, resolved_jobs,
  admit, fire, finish, check_quit, started, idle_senders,
}

module _ (n : ℕ) where
  abbrev pub within : Job → Bool
  within j = leb j.attempt n

  abbrev pub sender_within : Sender → Bool
  sender_within (delivering j) = within j
  sender_within _ = true

  abbrev pub resolver_within : Resolver → Bool
  resolver_within (enqueueing js) = all within js
  resolver_within (admitted j js) = within j && all within js
  resolver_within _ = true

  all-within-first_jobs :
      (e : Event) (payload : Bytes) (ws : Hooks) → all within (first_jobs e payload ws) ≡ true
  unfolding first_jobs
  all-within-first_jobs e payload [] = refl
  all-within-first_jobs e payload (w ∷ ws) = ground (arith, all-within-first_jobs e payload ws)

  all-within-jobs_of :
      (marshal : Event → Option Bytes) (e : Event) (r : Result Hooks)
      → all within (jobs_of marshal e r) ≡ true
  all-within-jobs_of marshal e (err x) = refl
  all-within-jobs_of marshal e (ok ws) = go (marshal e)
    where
      go :
          (m : Option Bytes)
          → all within (elim m [ none ↦ [] | some payload ↦ first_jobs e payload ws ]) ≡ true
      go none = refl
      go (some payload) = all-within-first_jobs e payload ws

-- `queue_size` and `max_retries` never change
pub record IsWithin (queue_size max_retries : ℕ) (p : Loops) : Type 0 where
  pub same_queue_size : p.dispatcher.queue_size ≡ queue_size
  pub same_max_retries : p.dispatcher.max_retries ≡ max_retries
  pub events_fit : leb (length p.dispatcher.events) queue_size ≡ true
  pub jobs_fit : leb (length p.dispatcher.jobs) queue_size ≡ true
  pub resolver_fits : resolver_within max_retries p.resolver ≡ true
  pub queue_within : all (within max_retries) p.dispatcher.jobs ≡ true
  pub senders_within : all (sender_within max_retries) p.senders ≡ true
  pub timers_within : all (within max_retries) p.timers ≡ true
  pub firing_within : all (within max_retries) p.firing ≡ true

-- what a move does to the lengths and to the tests on all elements
ruleset bounding = (arith, all-split, all-append, length-append)

module _ (marshal : Event → Option Bytes) (c n : ℕ) where
  pub Step-IsWithin : {p p' : Loops} → Step marshal p p' → IsWithin c n p → IsWithin c n p'
  unfolding check_quit admit fire finish deliver resolved_jobs
  Step-IsWithin {p} (checks e) b = ground arith
  Step-IsWithin {p} (offers e before after h) b = grind bounding
  Step-IsWithin {p} (hears e rest h k) b = ground arith
  Step-IsWithin {p} (resolves e fault h) b = ground (
    arith,
    all-within-jobs_of n marshal e (list_active_for_event fault e.tenant_id e.event_type p.hooks),
  )
  Step-IsWithin {p} (admits j js h) b = ground arith
  Step-IsWithin {p} (pushes j js h) b = grind bounding
  Step-IsWithin {p} (listens h) b = ground arith
  Step-IsWithin {p} (resolver_exits g h k) b = ground arith
  Step-IsWithin {p} (takes j rest before after h k) b = grind bounding
  Step-IsWithin {p} (delivers j answer fault now before after h) b = grind bounding
  Step-IsWithin {p} (sender_exits before after g h k) b = grind bounding
  Step-IsWithin {p} (fires j before after h) b = grind bounding
  Step-IsWithin {p} (retries_push j before after h) b = grind bounding
  Step-IsWithin {p} (hands_event e before after z g h k) b = grind bounding
  Step-IsWithin {p} (hands_job j js before after z g h k) b = grind bounding
  Step-IsWithin {p} (hands_retry j others rest before after z g h k) b = grind bounding
  Step-IsWithin {p} closes b = ground arith
  Step-IsWithin {p} (edits hooks) b = ground arith

  Steps-IsWithin : {p p' : Loops} → Steps marshal p p' → IsWithin c n p → IsWithin c n p'
  Steps-IsWithin done b = b
  Steps-IsWithin (next s ss) b = Steps-IsWithin ss (Step-IsWithin s b)

all-within-idle : (n senders : ℕ) → all (sender_within n) (idle_senders senders) ≡ true
all-within-idle n zero = refl
all-within-idle n (suc senders) = all-within-idle n senders

pub started-IsWithin_new :
    (c n senders : ℕ) (disable_after : ℤ) (hooks : Hooks)
    → IsWithin c n (started (new_dispatcher c n disable_after) senders hooks)
unfolding started new_dispatcher
started-IsWithin_new c n senders disable_after hooks = record {
  same_queue_size = refl;
  same_max_retries = refl;
  events_fit = ground arith;
  jobs_fit = ground arith;
  resolver_fits = refl;
  queue_within = refl;
  senders_within = all-within-idle n senders;
  timers_within = refl;
  firing_within = refl;
}

-- From `Start` on, whatever happens: neither queue ever holds more than its size, and every job, in
-- whatever place, has an attempt number of at most max_retries.
pub started-IsWithin :
    (marshal : Event → Option Bytes) (c n senders : ℕ) (disable_after : ℤ) (hooks : Hooks)
    (p : Loops)
    → Steps marshal (started (new_dispatcher c n disable_after) senders hooks) p
    → IsWithin c n p
started-IsWithin marshal c n senders disable_after hooks p ss =
    Steps-IsWithin marshal c n ss (started-IsWithin_new c n senders disable_after hooks)
