-- ===== src/Webhook/Loops/Flow.antt =====
-- Where the jobs of the dispatcher are.
use go_link_shortener.Base.{
  count-split, count-append, ℕ, suc, ◌+◌, ◌≡◌, Bool, Option, List, [], ◌∷◌, ◌++◌, Bytes, count,
  arith,
}
use go_link_shortener.Webhook.Dispatcher.{Event, Job, deliver}
use go_link_shortener.Webhook.Post.{posted}
use go_link_shortener.Webhook.Loops.{
  Loops, Sender, idle, delivering, sender_gone, Resolver, enqueueing, admitted, Step, checks,
  offers, hears, resolves, admits, pushes, listens, resolver_exits, takes, delivers, sender_exits,
  fires, retries_push, hands_event, hands_job, hands_retry, closes, edits, Steps, done, next, admit,
  fire, finish, check_quit,
}
use go_link_shortener.Webhook.Loops.Effects.{
  effect, total, one, made, settled_jobs, refused, abandoned, drops,
}

module _ (q : Job → Bool) where
  abbrev pub in_resolver : Resolver → ℕ
  in_resolver (enqueueing js) = count q js
  in_resolver (admitted j js) = one q j + count q js
  in_resolver _ = 0

  abbrev pub in_senders : List Sender → ℕ
  in_senders [] = 0
  in_senders (delivering j ∷ ws) = one q j + in_senders ws
  in_senders (idle ∷ ws) = in_senders ws
  in_senders (sender_gone ∷ ws) = in_senders ws

  abbrev pub in_sender : Sender → ℕ
  in_sender (delivering j) = one q j
  in_sender _ = 0

  pub in_senders-split :
      (before after : List Sender) (w : Sender)
      → in_senders (before ++ (w ∷ after)) ≡ in_sender w + in_senders (before ++ after)
  in_senders-split [] after w = ground arith
  in_senders-split (v ∷ before) after w = ground (arith, in_senders-split before after w)

  -- not yet settled, refused or abandoned
  abbrev pub in_flight : Loops → ℕ
  in_flight p =
      in_resolver p.resolver
      + count q p.dispatcher.jobs
      + in_senders p.senders
      + count q p.timers
      + count q p.firing

-- what a move does to a list of jobs and to the senders
pub ruleset flow = (arith, count-split, count-append, in_senders-split)

module _ (marshal : Event → Option Bytes) (q : Job → Bool)
    (same : (j : Job) (n : ℕ) → q (record j { attempt = n }) ≡ q j) where
  Step-in_flight :
      {p p' : Loops} (s : Step marshal p p')
      → in_flight q p'
          + settled_jobs q (effect marshal s)
          + refused q (effect marshal s)
          + abandoned q (effect marshal s)
        ≡ in_flight q p + made q (effect marshal s)
  unfolding effect check_quit admit fire finish deliver posted
  Step-in_flight {p} (checks e) = ground arith
  Step-in_flight {p} (offers e before after h) = ground arith
  Step-in_flight {p} (hears e rest h k) = ground arith
  Step-in_flight {p} (resolves e fault h) = ground arith
  Step-in_flight {p} (admits j js h) = ground arith
  Step-in_flight {p} (pushes j js h) = grind flow
  Step-in_flight {p} (listens h) = ground arith
  Step-in_flight {p} (resolver_exits g h k) = ground arith
  Step-in_flight {p} (takes j rest before after h k) = grind flow
  Step-in_flight {p} (delivers j answer fault now before after h) = grind (flow, same)
  Step-in_flight {p} (sender_exits before after g h k) = grind flow
  Step-in_flight {p} (fires j before after h) = grind flow
  Step-in_flight {p} (retries_push j before after h) = grind flow
  Step-in_flight {p} (hands_event e before after z g h k) = grind flow
  Step-in_flight {p} (hands_job j js before after z g h k) = grind flow
  Step-in_flight {p} (hands_retry j others rest before after z g h k) = grind flow
  Step-in_flight {p} closes = ground arith
  Step-in_flight {p} (edits hooks) = ground arith

pub Step-dropped :
    (marshal : Event → Option Bytes) {p p' : Loops} (s : Step marshal p p')
    → p'.dispatcher.dropped ≡ p.dispatcher.dropped + drops (effect marshal s)
unfolding effect check_quit admit fire finish deliver posted
Step-dropped marshal {p} (checks e) = ground arith
Step-dropped marshal {p} (resolves e fault h) = ground arith
Step-dropped marshal {p} (delivers j answer fault now before after h) = ground arith
Step-dropped marshal {p} s = ground arith

-- Whatever the interleaving of the callers, the resolver, the senders, the timers and Shutdown, no
-- delivery job is lost or doubled: of the jobs of any class that retries do not leave, those that were
-- in flight or have been made since are in flight, were settled by their last post, were refused by a
-- full queue, or were abandoned after `quit`. `dropped` counts the refused events and jobs.
pub Steps-in_flight :
    (marshal : Event → Option Bytes) (q : Job → Bool) {p p' : Loops} (ss : Steps marshal p p')
    → ((j : Job) (n : ℕ) → q (record j { attempt = n }) ≡ q j)
    → (in_flight q p'
          + total marshal (settled_jobs q) ss
          + total marshal (refused q) ss
          + total marshal (abandoned q) ss
        ≡ in_flight q p + total marshal (made q) ss)
      × (p'.dispatcher.dropped ≡ p.dispatcher.dropped + total marshal drops ss)
unfolding total
Steps-in_flight marshal q done same = (omega arith, omega arith)
Steps-in_flight marshal q (next s ss) same =
    let (flow, count_drops) = Steps-in_flight marshal q ss same in
    (
      omega (arith, Step-in_flight marshal q same s, flow),
      omega (arith, Step-dropped marshal s, count_drops),
    )
