-- ===== src/Webhook/Loops/Progress.antt =====
-- Shutdown of the dispatcher comes to an end.
use go_link_shortener.Base.{
  length-split, ◌*◌, ℕ, ap, ◌+◌, ◌≡◌, ◌≤◌, ◌⊎◌, inl, inr, refl, Bool, true, false, ◌&&◌, Option,
  none, List, [], ◌∷◌, ◌++◌, Bytes, count, length, length-append, all, arith,
}
use go_link_shortener.Webhook.Dispatcher.{Event, Job, deliver}
use go_link_shortener.Webhook.Loops.{
  Loops, Sender, idle, delivering, sender_gone, Resolver, listening, resolving, enqueueing,
  admitted, resolver_gone, Step, checks, offers, hears, resolves, admits, pushes, listens,
  resolver_exits, takes, delivers, sender_exits, fires, retries_push, hands_event, hands_job,
  hands_retry, closes, edits, Steps, done, next, resolved_jobs, admit, fire, finish, check_quit,
}
use go_link_shortener.Webhook.Loops.Effects.{effect, total, made}
use go_link_shortener.Webhook.Loops.Shutdown.{has_gone}

abbrev pub resolver_work : Resolver → ℕ
resolver_work listening = 1
resolver_work (resolving e) = 3
resolver_work (enqueueing js) = 2 + length js
resolver_work (admitted j js) = 7 + length js
resolver_work resolver_gone = 0

abbrev pub senders_work : List Sender → ℕ
senders_work [] = 0
senders_work (idle ∷ ws) = 1 + senders_work ws
senders_work (delivering j ∷ ws) = 4 + senders_work ws
senders_work (sender_gone ∷ ws) = senders_work ws

abbrev sender_work : Sender → ℕ
sender_work idle = 1
sender_work (delivering j) = 4
sender_work sender_gone = 0

-- a bound for the moves that are left once `quit` is closed, but for those that the jobs of the
-- queued events will need
abbrev pub work : Loops → ℕ
work p =
    4 * length p.offering
    + 3 * length p.dispatcher.events
    + resolver_work p.resolver
    + 4 * length p.dispatcher.jobs
    + senders_work p.senders
    + length p.timers
    + 5 * length p.firing

senders_work-split :
    (before after : List Sender) (w : Sender)
    → senders_work (before ++ (w ∷ after)) ≡ sender_work w + senders_work (before ++ after)
senders_work-split [] after w = ground arith
senders_work-split (v ∷ before) after w = ground (arith, senders_work-split before after w)

count-all : (js : List Job) → count (λ j. true) js ≡ length js
count-all [] = refl
count-all (j ∷ js) = ground (arith, count-all js)

-- what a move does to the lengths and to the work of the senders
ruleset working = (arith, length-split, length-append, senders_work-split)

module _ (marshal : Event → Option Bytes) where
  -- whether a move belongs to a goroutine of the dispatcher, to a timer or to a caller that has passed
  -- the first select
  abbrev pub is_own : {p p' : Loops} → Step marshal p p' → ℕ
  is_own (checks e) = 0
  is_own closes = 0
  is_own (edits hooks) = 0
  is_own _ = 1

  unfoldable pub own_moves : {p p' : Loops} → Steps marshal p p' → ℕ
  own_moves done = 0
  own_moves (next s ss) = is_own s + own_moves ss

  made_now : {p p' : Loops} → Step marshal p p' → ℕ
  made_now s = made (λ j. true) (effect marshal s)

  Step-work :
      {p p' : Loops} (s : Step marshal p p')
      → p.dispatcher.quit ≡ true
      → (work p' + is_own s ≤ work p + made_now s) × (p'.dispatcher.quit ≡ true)
  unfolding effect check_quit admit fire finish deliver made_now
  Step-work {p} (checks e) c = ground arith
  Step-work {p} (offers e before after h) c = grind working
  Step-work {p} (hears e rest h k) c = ground arith
  Step-work {p} (resolves e fault h) c =
      ground (arith, count-all (resolved_jobs marshal fault e p.hooks))
  Step-work {p} (admits j js h) c = ground arith
  Step-work {p} (pushes j js h) c = grind working
  Step-work {p} (listens h) c = ground arith
  Step-work {p} (resolver_exits g h k) c = ground arith
  Step-work {p} (takes j rest before after h k) c = grind working
  Step-work {p} (delivers j answer fault now before after h) c = grind working
  Step-work {p} (sender_exits before after g h k) c = grind working
  Step-work {p} (fires j before after h) c = grind working
  Step-work {p} (retries_push j before after h) c = grind working
  Step-work {p} (hands_event e before after z g h k) c = absurd (ground arith)
  Step-work {p} (hands_job j js before after z g h k) c = absurd (ground arith)
  Step-work {p} (hands_retry j others rest before after z g h k) c = absurd (ground arith)
  Step-work {p} closes c = ground arith
  Step-work {p} (edits hooks) c = ground arith

own_moves-le :
    (marshal : Event → Option Bytes) {p p' : Loops} (ss : Steps marshal p p')
    → p.dispatcher.quit ≡ true
    → (work p' + own_moves marshal ss ≤ work p + total marshal (made (λ j. true)) ss)
      × (p'.dispatcher.quit ≡ true)
unfolding own_moves total made_now
own_moves-le marshal done c = (omega arith, c)
own_moves-le marshal (next s ss) c =
    let (less, closed) = Step-work marshal s c in
    let (rest, still) = own_moves-le marshal ss closed in (omega (arith, less, rest), still)

abbrev pub is_gone : Resolver → Bool
is_gone resolver_gone = true
is_gone _ = false

-- what `wg.Wait` waits for
abbrev pub all_returned : Loops → Bool
all_returned p = is_gone p.resolver && all has_gone p.senders

record Active (ws : List Sender) : Type 0 where
  before : List Sender
  after : List Sender
  sender : Sender
  still : has_gone sender ≡ false
  split : ws ≡ before ++ (sender ∷ after)

find_running : (ws : List Sender) → (all has_gone ws ≡ true) ⊎ Active ws
find_running [] = inl refl
find_running (sender_gone ∷ ws) = elim (find_running ws) [
  | inl gone ↦ inl gone
  | inr a ↦ inr (record {
    before = sender_gone ∷ a.before;
    after = a.after;
    sender = a.sender;
    still = a.still;
    split = ap (λ vs. sender_gone ∷ vs) a.split;
  })
]
find_running (idle ∷ ws) =
    inr (record { before = []; after = ws; sender = idle; still = refl; split = refl })
find_running (delivering j ∷ ws) =
    inr (record { before = []; after = ws; sender = delivering j; still = refl; split = refl })

module _ (marshal : Event → Option Bytes) (p : Loops) where
  abbrev pub CanMove : Type 0
  CanMove = (p' : Loops) × (s : Step marshal p p') × (is_own marshal s ≡ 1)

  sender_can_move :
      (before after : List Sender) (w : Sender)
      → p.dispatcher.quit ≡ true
      → has_gone w ≡ false
      → p.senders ≡ before ++ (w ∷ after)
      → CanMove
  sender_can_move before after idle c still split = go p.dispatcher.jobs refl
    where
      go : (js : List Job) → p.dispatcher.jobs ≡ js → CanMove
      go [] h = (_, sender_exits before after c h split, refl)
      go (j ∷ rest) h = (_, takes j rest before after h split, refl)
  sender_can_move before after (delivering j) c still split =
      (_, delivers j none false 0 before after split, refl)
  sender_can_move before after sender_gone c still split = absurd (ground arith)

  resolver_can_move :
      (r : Resolver) → p.dispatcher.quit ≡ true → p.resolver ≡ r → (is_gone r ≡ true) ⊎ CanMove
  resolver_can_move listening c h = inr (go p.dispatcher.events refl)
    where
      go : (es : List Event) → p.dispatcher.events ≡ es → CanMove
      go [] k = (_, resolver_exits c k h, refl)
      go (e ∷ rest) k = (_, hears e rest h k, refl)
  resolver_can_move (resolving e) c h = inr (_, resolves e false h, refl)
  resolver_can_move (enqueueing []) c h = inr (_, listens h, refl)
  resolver_can_move (enqueueing (j ∷ js)) c h = inr (_, admits j js h, refl)
  resolver_can_move (admitted j js) c h = inr (_, pushes j js h, refl)
  resolver_can_move resolver_gone c h = inl refl

closed-CanMove :
    (marshal : Event → Option Bytes) (p : Loops)
    → p.dispatcher.quit ≡ true
    → (all_returned p ≡ true) ⊎ CanMove marshal p
closed-CanMove marshal p c = elim (resolver_can_move marshal p p.resolver c refl) [
  | inr move ↦ inr move
  | inl gone ↦ elim (find_running p.senders) [
    | inl all_gone ↦ inl (ground arith)
    | inr a ↦ inr (sender_can_move marshal p a.before a.after a.sender c a.still a.split)
  ]
]

-- Once `quit` is closed, in whatever interleaving: the goroutines, the timers and the callers that have
-- passed the first select of Dispatch make no more than `work p` moves, and one more for each job that
-- the resolver makes meanwhile; and at any time the resolver and all senders have returned, which is
-- what Shutdown waits for, or one of them can move.
pub shutdown-ends :
    (marshal : Event → Option Bytes) {p p' : Loops} (ss : Steps marshal p p')
    → p.dispatcher.quit ≡ true
    → (own_moves marshal ss ≤ work p + total marshal (made (λ j. true)) ss)
      × ((all_returned p' ≡ true) ⊎ CanMove marshal p')
shutdown-ends marshal {p} {p'} ss c =
    let (few, still) = own_moves-le marshal ss c in
    (omega (arith, few), closed-CanMove marshal p' still)
