-- ===== src/Webhook/Loops/Attempts.antt =====
-- How often the jobs of the dispatcher are posted.
use go_link_shortener.Base.{
  ℕ, zero, suc, ◌+◌, ◌-◌, ◌*◌, ◌≡◌, ◌≤◌, refl, Bool, Option, none, some, List, [], ◌∷◌, ◌++◌, Bytes,
  ℤ, count, all-split, if◌then◌else◌, arith,
}
use native.Mathlib.Nat.{mul-add}
use go_link_shortener.Domain.Errors.{Result, ok, err}
use go_link_shortener.Store.Webhooks.{Hooks, list_active_for_event}
use go_link_shortener.Webhook.Dispatcher.{Event, Job, deliver, new_dispatcher}
use go_link_shortener.Webhook.Post.{posted}
use go_link_shortener.Webhook.Loops.{
  Loops, Sender, idle, delivering, Resolver, enqueueing, admitted, Step, checks, offers, hears,
  resolves, admits, pushes, listens, resolver_exits, takes, delivers, sender_exits, fires,
  retries_push, hands_event, hands_job, hands_retry, closes, edits, Steps, done, next, first_jobs,
  jobs_of, resolved_jobs, admit, fire, finish, check_quit, started, idle_senders,
}
use go_link_shortener.Webhook.Loops.Effects.{effect, total, made, posts}
use go_link_shortener.Webhook.Loops.Bounds.{
  IsWithin, sender_within, Step-IsWithin, started-IsWithin_new,
}

module _ (q : Job → Bool) (n : ℕ) where
  -- the posts that a job still may need
  abbrev left : Job → ℕ
  left j = if q j then suc n - j.attempt else 0

  abbrev left_all : List Job → ℕ
  left_all [] = 0
  left_all (j ∷ js) = left j + left_all js

  abbrev left_resolver : Resolver → ℕ
  left_resolver (enqueueing js) = left_all js
  left_resolver (admitted j js) = left j + left_all js
  left_resolver _ = 0

  abbrev left_sender : Sender → ℕ
  left_sender (delivering j) = left j
  left_sender _ = 0

  abbrev left_senders : List Sender → ℕ
  left_senders [] = 0
  left_senders (w ∷ ws) = left_sender w + left_senders ws

  abbrev left_posts : Loops → ℕ
  left_posts p =
      left_resolver p.resolver
      + left_all p.dispatcher.jobs
      + left_senders p.senders
      + left_all p.timers
      + left_all p.firing

  left_all-append : (xs ys : List Job) → left_all (xs ++ ys) ≡ left_all xs + left_all ys
  left_all-append [] ys = omega arith
  left_all-append (x ∷ xs) ys = omega (arith, left_all-append xs ys)

  left_all-split :
      (before after : List Job) (j : Job)
      → left_all (before ++ (j ∷ after)) ≡ left j + left_all (before ++ after)
  left_all-split [] after j = refl
  left_all-split (i ∷ before) after j = omega (arith, left_all-split before after j)

  left_senders-split :
      (before after : List Sender) (w : Sender)
      → left_senders (before ++ (w ∷ after)) ≡ left_sender w + left_senders (before ++ after)
  left_senders-split [] after w = refl
  left_senders-split (v ∷ before) after w = omega (arith, left_senders-split before after w)

  left_all-first_jobs :
      (e : Event) (payload : Bytes) (ws : Hooks)
      → left_all (first_jobs e payload ws) ≡ suc n * count q (first_jobs e payload ws)
  unfolding first_jobs
  left_all-first_jobs e payload [] = omega arith
  left_all-first_jobs e payload (w ∷ ws) = omega (
    arith,
    left_all-first_jobs e payload ws,
    fresh_left (record { webhook = w; event = e; payload = payload; attempt = 0 }) refl,
    mul-add (suc n)
        (if q (record { webhook = w; event = e; payload = payload; attempt = 0 }) then 1 else 0)
        (count q (first_jobs e payload ws)),
  )
    where
      fresh_left : (j : Job) → j.attempt ≡ 0 → left j ≡ suc n * (if q j then 1 else 0)
      fresh_left j h = ground arith

  left_all-jobs_of :
      (marshal : Event → Option Bytes) (e : Event) (r : Result Hooks)
      → left_all (jobs_of marshal e r) ≡ suc n * count q (jobs_of marshal e r)
  left_all-jobs_of marshal e (err x) = omega arith
  left_all-jobs_of marshal e (ok ws) = go (marshal e)
    where
      go :
          (m : Option Bytes)
          → left_all (elim m [ none ↦ [] | some payload ↦ first_jobs e payload ws ])
            ≡ suc n * count q (elim m [ none ↦ [] | some payload ↦ first_jobs e payload ws ])
      go none = omega arith
      go (some payload) = left_all-first_jobs e payload ws

  ruleset spending = (arith, left_all-append, left_all-split, left_senders-split, all-split)

module _ (marshal : Event → Option Bytes) (c n : ℕ) (q : Job → Bool)
    (same : (j : Job) (k : ℕ) → q (record j { attempt = k }) ≡ q j) where
  Step-left_posts :
      {p p' : Loops} (s : Step marshal p p')
      → IsWithin c n p
      → left_posts q n p' + posts q (effect marshal s)
        ≤ left_posts q n p + suc n * made q (effect marshal s)
  unfolding effect check_quit admit fire finish deliver posted resolved_jobs
  Step-left_posts {p} (checks e) b = ground arith
  Step-left_posts {p} (offers e before after h) b = ground arith
  Step-left_posts {p} (hears e rest h k) b = ground arith
  Step-left_posts {p} (resolves e fault h) b = ground (
    arith,
    left_all-jobs_of q n marshal e (list_active_for_event fault e.tenant_id e.event_type p.hooks),
  )
  Step-left_posts {p} (admits j js h) b = ground arith
  Step-left_posts {p} (pushes j js h) b = grind spending
  Step-left_posts {p} (listens h) b = ground arith
  Step-left_posts {p} (resolver_exits g h k) b = ground arith
  Step-left_posts {p} (takes j rest before after h k) b = grind spending
  Step-left_posts {p} (delivers j answer fault now before after h) b =
      let fits = all-split (sender_within n) before after (delivering j) in
      ground (
        arith,
        fits,
        b.senders_within,
        b.same_max_retries,
        same j (suc j.attempt),
        left_senders-split q n before after (delivering j),
        left_senders-split q n before after idle,
      )
  Step-left_posts {p} (sender_exits before after g h k) b = grind spending
  Step-left_posts {p} (fires j before after h) b = grind spending
  Step-left_posts {p} (retries_push j before after h) b = grind spending
  Step-left_posts {p} (hands_event e before after z g h k) b = grind spending
  Step-left_posts {p} (hands_job j js before after z g h k) b = grind spending
  Step-left_posts {p} (hands_retry j others rest before after z g h k) b = grind spending
  Step-left_posts {p} closes b = ground arith
  Step-left_posts {p} (edits hooks) b = ground arith

  Steps-left_posts :
      {p p' : Loops} (ss : Steps marshal p p')
      → IsWithin c n p
      → left_posts q n p' + total marshal (posts q) ss
        ≤ left_posts q n p + suc n * total marshal (made q) ss
  unfolding total
  Steps-left_posts done b = omega arith
  Steps-left_posts (next s ss) b = omega (
    arith,
    Step-left_posts s b,
    Steps-left_posts ss (Step-IsWithin marshal c n s b),
    mul-add (suc n) (made q (effect marshal s)) (total marshal (made q) ss),
  )

left_senders-idle : (q : Job → Bool) (n senders : ℕ) → left_senders q n (idle_senders senders) ≡ 0
left_senders-idle q n zero = refl
left_senders-idle q n (suc senders) = omega (arith, left_senders-idle q n senders)

-- From `Start` on, whatever happens, the jobs of any class that retries do not leave (such as those of
-- one event to one webhook) are posted at most max_retries + 1 times for each one that was made.
pub started-posts :
    (marshal : Event → Option Bytes) (c n senders : ℕ) (disable_after : ℤ) (hooks : Hooks)
    (q : Job → Bool) {p : Loops}
    (ss : Steps marshal (started (new_dispatcher c n disable_after) senders hooks) p)
    → ((j : Job) (k : ℕ) → q (record j { attempt = k }) ≡ q j)
    → total marshal (posts q) ss ≤ suc n * total marshal (made q) ss
unfolding started new_dispatcher
started-posts marshal c n senders disable_after hooks q ss same = omega (
  arith,
  Steps-left_posts marshal c n q same ss (started-IsWithin_new c n senders disable_after hooks),
  left_senders-idle q n senders,
)
