-- ===== src/Webhook/Loops/Shutdown.antt =====
-- Shutdown of the dispatcher: which jobs are still posted, and which are not.
use go_link_shortener.Base.{
  any-split, ℕ, ◌+◌, ◌≡◌, refl, Bool, true, false, ◌||◌, not, Option, List, [], ◌∷◌, Bytes, count,
  all, any, arith,
}
use go_link_shortener.Webhook.Dispatcher.{Event, Job, deliver}
use go_link_shortener.Webhook.Post.{posted}
use go_link_shortener.Webhook.Loops.{
  Loops, Sender, sender_gone, Resolver, admitted, Step, checks, offers, hears, resolves, admits,
  pushes, listens, resolver_exits, takes, delivers, sender_exits, fires, retries_push, hands_event,
  hands_job, hands_retry, closes, edits, Steps, done, next, admit, fire, finish, check_quit,
}
use go_link_shortener.Webhook.Loops.Effects.{effect, total, posts, drops}
use go_link_shortener.Webhook.Loops.Flow.{in_senders, flow, Step-dropped}

abbrev pub has_gone : Sender → Bool
has_gone sender_gone = true
has_gone _ = false

abbrev pub between_selects : Resolver → Bool
between_selects (admitted j js) = true
between_selects _ = false

abbrev pub is_empty : List Job → Bool
is_empty [] = true
is_empty (j ∷ js) = false

-- `quit` is closed, nobody is left between two selects, and no sender has returned while jobs are
-- queued
pub record IsClosed (p : Loops) : Type 0 where
  pub closed : p.dispatcher.quit ≡ true
  pub no_offer : p.offering ≡ []
  pub not_admitted : between_selects p.resolver ≡ false
  pub not_firing : p.firing ≡ []
  pub drained : not (any has_gone p.senders) || is_empty p.dispatcher.jobs ≡ true

-- what a move does to the senders that have returned
ruleset closing = (arith, any-split)

-- with the senders
abbrev pub held : (Job → Bool) → Loops → ℕ
held q p = count q p.dispatcher.jobs + in_senders q p.senders

module _ (marshal : Event → Option Bytes) where
  Step-IsClosed : {p p' : Loops} → Step marshal p p' → IsClosed p → IsClosed p'
  unfolding check_quit admit fire finish deliver
  Step-IsClosed {p} (checks e) c = ground arith
  Step-IsClosed {p} (offers e [] after h) c = ground arith
  Step-IsClosed {p} (offers e (b ∷ before) after h) c = ground arith
  Step-IsClosed {p} (hears e rest h k) c = ground arith
  Step-IsClosed {p} (resolves e fault h) c = ground arith
  Step-IsClosed {p} (admits j js h) c = ground arith
  Step-IsClosed {p} (pushes j js h) c = ground arith
  Step-IsClosed {p} (listens h) c = ground arith
  Step-IsClosed {p} (resolver_exits g h k) c = ground arith
  Step-IsClosed {p} (takes j rest before after h k) c = grind closing
  Step-IsClosed {p} (delivers j answer fault now before after h) c = grind closing
  Step-IsClosed {p} (sender_exits before after g h k) c = grind closing
  Step-IsClosed {p} (fires j before after h) c = ground arith
  Step-IsClosed {p} (retries_push j [] after h) c = ground arith
  Step-IsClosed {p} (retries_push j (i ∷ before) after h) c = ground arith
  Step-IsClosed {p} (hands_event e before after z g h k) c = absurd (ground (arith, c.closed))
  Step-IsClosed {p} (hands_job j js before after z g h k) c = absurd (ground (arith, c.closed))
  Step-IsClosed {p} (hands_retry j others rest before after z g h k) c =
      absurd (ground (arith, c.closed))
  Step-IsClosed {p} closes c = ground arith
  Step-IsClosed {p} (edits hooks) c = ground arith

  module _ (q : Job → Bool) where
    Step-posts :
        {p p' : Loops} (s : Step marshal p p')
        → IsClosed p
        → (held q p' + posts q (effect marshal s) ≡ held q p) × (drops (effect marshal s) ≡ 0)
    unfolding effect check_quit admit fire finish deliver posted
    Step-posts {p} (checks e) c = ground arith
    Step-posts {p} (offers e [] after h) c = ground arith
    Step-posts {p} (offers e (b ∷ before) after h) c = ground arith
    Step-posts {p} (hears e rest h k) c = ground arith
    Step-posts {p} (resolves e fault h) c = ground arith
    Step-posts {p} (admits j js h) c = ground arith
    Step-posts {p} (pushes j js h) c = ground arith
    Step-posts {p} (listens h) c = ground arith
    Step-posts {p} (resolver_exits g h k) c = ground arith
    Step-posts {p} (takes j rest before after h k) c = grind flow
    Step-posts {p} (delivers j answer fault now before after h) c = grind flow
    Step-posts {p} (sender_exits before after g h k) c = grind flow
    Step-posts {p} (fires j before after h) c = ground arith
    Step-posts {p} (retries_push j [] after h) c = ground arith
    Step-posts {p} (retries_push j (i ∷ before) after h) c = ground arith
    Step-posts {p} (hands_event e before after z g h k) c = absurd (ground (arith, c.closed))
    Step-posts {p} (hands_job j js before after z g h k) c = absurd (ground (arith, c.closed))
    Step-posts {p} (hands_retry j others rest before after z g h k) c =
        absurd (ground (arith, c.closed))
    Step-posts {p} closes c = ground arith
    Step-posts {p} (edits hooks) c = ground arith

    Steps-posts :
        {p p' : Loops} (ss : Steps marshal p p')
        → IsClosed p
        → (held q p' + total marshal (posts q) ss ≡ held q p)
          × (p'.dispatcher.dropped ≡ p.dispatcher.dropped)
          × IsClosed p'
    unfolding total
    Steps-posts done c = (omega arith, refl, c)
    Steps-posts (next s ss) c =
        let (now, none_dropped) = Step-posts s c in
        let (later, same, c') = Steps-posts ss (Step-IsClosed s c) in
        (omega (arith, now, later), omega (arith, none_dropped, same, Step-dropped marshal s), c')

  in_senders-gone :
      (q : Job → Bool) (ws : List Sender) → all has_gone ws ≡ true → in_senders q ws ≡ 0
  in_senders-gone q [] h = refl
  in_senders-gone q (w ∷ ws) h = ground (arith, in_senders-gone q ws)

-- If `quit` is closed, no caller, resolver or timer is between two selects, and no sender has returned
-- while jobs are queued: when later all senders, at least one, have returned, the queue of jobs is
-- empty, and exactly the jobs that were in it or with a sender at first have been posted, each once. No job of an event that was still
-- queued, and no retry, is posted, and `dropped` counts none of them.
pub closed-posts :
    (marshal : Event → Option Bytes) (q : Job → Bool) {p p' : Loops} (ss : Steps marshal p p')
    → IsClosed p
    → any has_gone p'.senders ≡ true
    → all has_gone p'.senders ≡ true
    → (p'.dispatcher.jobs ≡ [])
      × (total marshal (posts q) ss ≡ held q p)
      × (p'.dispatcher.dropped ≡ p.dispatcher.dropped)
closed-posts marshal q {p} {p'} ss c some_gone all_gone =
    let (balance, same, c') = Steps-posts marshal q ss c in
    let empty = empty_of p'.dispatcher.jobs c'.drained in
    (empty, ground (arith, in_senders-gone marshal q p'.senders), same)
  where
    empty_of : (js : List Job) → not (any has_gone p'.senders) || is_empty js ≡ true → js ≡ []
    empty_of [] h = refl
    empty_of (j ∷ js) h = absurd (ground arith)
