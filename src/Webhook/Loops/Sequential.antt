-- ===== src/Webhook/Loops/Sequential.antt =====
-- A goroutine of the dispatcher when no other one moves: the moves of the resolver together are
-- `resolve`, and those of a caller are `dispatch`.
use go_link_shortener.Base.{
  ◌≡◌, refl, subst, sym, Bool, true, false, Option, none, some, List, [], ◌∷◌, Bytes, Bool-cases,
  inl, inr,
}
use go_link_shortener.Domain.Errors.{Result, ok, err}
use go_link_shortener.Store.Webhooks.{Hooks, list_active_for_event}
use go_link_shortener.Webhook.Dispatcher.{
  offer, Event, Job, Dispatcher, push_job, enqueue_job, fan_out, resolved, resolve, dispatch,
}
use go_link_shortener.Webhook.Loops.{
  Loops, listening, resolving, enqueueing, admitted, Step, resolves, admits, pushes, listens,
  checks, offers, check_quit, Steps, done, next, first_jobs, jobs_of, resolved_jobs, admit,
}

-- the resolver with these jobs to enqueue
abbrev enqueues : Loops → List Job → Dispatcher → Loops
enqueues p js d = record p { resolver = enqueueing js; dispatcher = d }

-- the resolver back in its select
abbrev hearing : Loops → Dispatcher → Loops
hearing p d = record p { resolver = listening; dispatcher = d }

admit-quit :
    (j : Job) (js : List Job) (p : Loops) (d : Dispatcher)
    → d.quit ≡ true
    → admit j js (enqueues p (j ∷ js) d) ≡ enqueues p js (enqueue_job j d)
unfolding admit enqueue_job
admit-quit j js p d quit = rw quit refl

admit-running :
    (j : Job) (js : List Job) (p : Loops) (d : Dispatcher)
    → d.quit ≡ false
    → admit j js (enqueues p (j ∷ js) d) ≡ record p { resolver = admitted j js; dispatcher = d }
unfolding admit
admit-running j js p d running = rw running refl

enqueue_job-running : (j : Job) (d : Dispatcher) → d.quit ≡ false → push_job j d ≡ enqueue_job j d
unfolding enqueue_job
enqueue_job-running j d running = rw running refl

module _ (marshal : Event → Option Bytes) (p : Loops) where
  -- The two selects of enqueueJob, one after the other, are `enqueue_job`.
  enqueue_job-Steps :
      (j : Job) (js : List Job) (d : Dispatcher) (p' : Loops)
      → Steps marshal (enqueues p js (enqueue_job j d)) p'
      → Steps marshal (enqueues p (j ∷ js) d) p'
  enqueue_job-Steps j js d p' ss = elim (Bool-cases d.quit) [
    | inl quit ↦
        next (admits j js refl)
          (subst (λ s. Steps marshal s p') (sym (admit-quit j js p d quit)) ss)
    | inr running ↦
        next (subst (Step marshal _) (admit-running j js p d running) (admits j js refl)) (
          next (pushes j js refl) (
            subst (λ x. Steps marshal (enqueues p js x) p') (sym (enqueue_job-running j d running))
              ss))
  ]

  fan_out-Steps :
      (e : Event) (payload : Bytes) (ws : Hooks) (d : Dispatcher)
      → Steps marshal (enqueues p (first_jobs e payload ws) d) (hearing p (fan_out e payload ws d))
  unfolding first_jobs fan_out
  fan_out-Steps e payload [] d = next (listens refl) done
  fan_out-Steps e payload (w ∷ ws) d =
      enqueue_job-Steps _ (first_jobs e payload ws) d _
        (fan_out-Steps e payload ws (enqueue_job _ d))

  resolved-Steps :
      (e : Event) (r : Result Hooks) (d : Dispatcher)
      → Steps marshal (enqueues p (jobs_of marshal e r) d) (hearing p (resolved marshal e r d))
  unfolding resolved first_jobs fan_out
  resolved-Steps e (err x) d = next (listens refl) done
  resolved-Steps e (ok []) d = go (marshal e)
    where
      go :
          (m : Option Bytes)
          → Steps marshal
              (enqueues p (elim m [ none ↦ [] | some payload ↦ first_jobs e payload [] ]) d)
              (hearing p d)
      go none = next (listens refl) done
      go (some payload) = next (listens refl) done
  resolved-Steps e (ok (w ∷ ws)) d = go (marshal e)
    where
      go :
          (m : Option Bytes)
          → Steps marshal
              (enqueues p (elim m [ none ↦ [] | some payload ↦ first_jobs e payload (w ∷ ws) ]) d)
              (hearing p (elim m [ none ↦ d | some payload ↦ fan_out e payload (w ∷ ws) d ]))
      go none = next (listens refl) done
      go (some payload) = fan_out-Steps e payload (w ∷ ws) d

-- From an event it has heard, the resolver can go, with nobody else moving, to its select again, with
-- the dispatcher as `resolve` leaves it and all else unchanged, whether or not Shutdown has begun.
resolve-Steps :
    (marshal : Event → Option Bytes) (fault : Bool) (e : Event) (p : Loops)
    → p.resolver ≡ resolving e
    → Steps marshal p (hearing p (resolve marshal fault e p.hooks p.dispatcher))
unfolding resolve resolved_jobs
resolve-Steps marshal fault e p h = next (resolves e fault h) (
    resolved-Steps marshal p e (list_active_for_event fault e.tenant_id e.event_type p.hooks)
      p.dispatcher)

check_quit-running :
    (e : Event) (p : Loops)
    → p.dispatcher.quit ≡ false
    → check_quit e p ≡ record p { offering = e ∷ p.offering }
unfolding check_quit
check_quit-running e p running = rw running refl

check_quit-quit : (e : Event) (p : Loops) → p.dispatcher.quit ≡ true → check_quit e p ≡ p
unfolding check_quit
check_quit-quit e p quit = rw quit refl

dispatch-quit : (e : Event) (d : Dispatcher) → d.quit ≡ true → d ≡ (dispatch e d).1
unfolding dispatch
dispatch-quit e d quit = rw quit refl

dispatch-running : (e : Event) (d : Dispatcher) → d.quit ≡ false → (offer e d).1 ≡ (dispatch e d).1
unfolding dispatch
dispatch-running e d running = rw running refl

-- The two selects of Dispatch, with nobody between them, are `dispatch`.
dispatch-Steps :
    (marshal : Event → Option Bytes) (e : Event) (p : Loops)
    → Steps marshal p (record p { dispatcher = (dispatch e p.dispatcher).1 })
dispatch-Steps marshal e p = elim (Bool-cases p.dispatcher.quit) [
  | inl quit ↦
      subst (λ d. Steps marshal p (record p { dispatcher = d })) (dispatch-quit e p.dispatcher quit)
        (next (subst (Step marshal p) (check_quit-quit e p quit) (checks e)) done)
  | inr running ↦
      subst (λ d. Steps marshal p (record p { dispatcher = d }))
        (dispatch-running e p.dispatcher running)
        (next (subst (Step marshal p) (check_quit-running e p running) (checks e))
          (next (offers e [] p.offering refl) done))
]
