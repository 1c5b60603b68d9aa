-- ===== src/Webhook/Loops/Effects.antt =====
-- What a move of the dispatcher's goroutines does to the jobs.
use go_link_shortener.Base.{ℕ, ◌+◌, Bool, Option, List, Bytes, count, length, ltb, if◌then◌else◌}
use go_link_shortener.Webhook.Dispatcher.{Event, Job}
use go_link_shortener.Webhook.Post.{posted}
use go_link_shortener.Webhook.Loops.{
  Loops, Step, checks, offers, hears, resolves, admits, pushes, listens, resolver_exits, takes,
  delivers, sender_exits, fires, retries_push, hands_event, hands_job, hands_retry, closes, edits,
  Steps, done, next, resolved_jobs,
}

-- A job is made for a subscriber, posted with a retry to come or for the last time, refused by a full
-- queue, or abandoned after `quit`.
pub data Effect : Type 0 where
  quiet : Effect
  makes : List Job → Effect
  retried : Job → Effect
  settles : Job → Effect
  refuses : Job → Effect
  abandons : Job → Effect
  refuses_event : Effect

module _ (q : Job → Bool) where
  abbrev pub one : Job → ℕ
  one j = if q j then 1 else 0

  abbrev pub made : Effect → ℕ
  made (makes js) = count q js
  made _ = 0

  abbrev pub settled_jobs : Effect → ℕ
  settled_jobs (settles j) = one j
  settled_jobs _ = 0

  abbrev pub refused : Effect → ℕ
  refused (refuses j) = one j
  refused _ = 0

  abbrev pub abandoned : Effect → ℕ
  abandoned (abandons j) = one j
  abandoned _ = 0

  abbrev pub posts : Effect → ℕ
  posts (settles j) = one j
  posts (retried j) = one j
  posts _ = 0

-- what the counter `dropped` counts
abbrev pub drops : Effect → ℕ
drops (refuses j) = 1
drops refuses_event = 1
drops _ = 0

module _ (marshal : Event → Option Bytes) where
  unfoldable pub effect : {p p' : Loops} → Step marshal p p' → Effect
  unfolding posted
  effect {p} (checks e) = quiet
  effect {p} (offers e before after h) =
      if ltb (length p.dispatcher.events) p.dispatcher.queue_size then quiet else refuses_event
  effect {p} (hears e rest h k) = quiet
  effect {p} (resolves e fault h) = makes (resolved_jobs marshal fault e p.hooks)
  effect {p} (admits j js h) = if p.dispatcher.quit then abandons j else quiet
  effect {p} (pushes j js h) =
      if ltb (length p.dispatcher.jobs) p.dispatcher.queue_size then quiet else refuses j
  effect {p} (listens h) = quiet
  effect {p} (resolver_exits g h k) = quiet
  effect {p} (takes j rest before after h k) = quiet
  effect {p} (delivers j answer fault now before after h) =
      if posted answer
      then settles j
      else if ltb j.attempt p.dispatcher.max_retries
      then retried j
      else settles j
  effect {p} (sender_exits before after g h k) = quiet
  effect {p} (fires j before after h) = if p.dispatcher.quit then abandons j else quiet
  effect {p} (retries_push j before after h) =
      if ltb (length p.dispatcher.jobs) p.dispatcher.queue_size then quiet else refuses j
  effect {p} (hands_event e before after z g h k) = quiet
  effect {p} (hands_job j js before after z g h k) = quiet
  effect {p} (hands_retry j others rest before after z g h k) = quiet
  effect {p} closes = quiet
  effect {p} (edits hooks) = quiet

  -- the sum of a measure over the moves
  unfoldable pub total : {p p' : Loops} → (Effect → ℕ) → Steps marshal p p' → ℕ
  unfolding effect
  total f done = 0
  total f (next s ss) = f (effect s) + total f ss
