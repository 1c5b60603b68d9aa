-- ===== src/Analytics/Pipeline/Drain.antt =====
-- Shutdown of the pipeline: what is drained, and what a late producer leaves behind.
use go_link_shortener.Base.{
  none, some, Option, sym, subst, ◌∙◌, ℕ, ◌≡◌, refl, Bool, true, false, List, [], ◌∷◌, ◌++◌, all,
  any, leb, arith,
}
use go_link_shortener.Store.Db.{Click}
use go_link_shortener.Analytics.Enrich.{ClickEvent}
use go_link_shortener.Analytics.Pipeline.Conservation.{
  accepted, all_accepted, in_workers, in_batches, held, Steps-held,
}
use go_link_shortener.Analytics.Pipeline.{
  Worker, collecting, exited, Pipeline, started, check_quit, send, flush_batch, collect, resume,
  leave, Step, checks, sends, receives, ticks, closes, exits, Steps, done, next,
}

abbrev pub has_exited : Worker → Bool
has_exited (collecting batch) = false
has_exited exited = true

-- `quit` is closed, no producer is left between its two selects, and no worker has returned while
-- events are in the channel
pub record IsClosed (p : Pipeline) : Type 0 where
  pub closed : p.quit ≡ true
  pub unchecked : p.checked ≡ []
  pub drained : any has_exited p.workers ≡ true → p.buffer ≡ []

any-split :
    (before after : List Worker) (a b : List Click)
    → any has_exited (before ++ (collecting a ∷ after))
      ≡ any has_exited (before ++ (collecting b ∷ after))
any-split [] after a b = refl
any-split (w ∷ ws) after a b = ground (arith, any-split ws after a b)

resume-IsClosed :
    (before after : List Worker) (batch : List Click) (r : List Click × Pipeline)
    → r.1.quit ≡ true
    → r.1.checked ≡ []
    → (any has_exited (before ++ (collecting batch ∷ after)) ≡ true → r.1.buffer ≡ [])
    → IsClosed (resume before after r)
resume-IsClosed before after batch (b, p) closed unchecked drained = record {
  closed = closed;
  unchecked = unchecked;
  drained = λ some_exited. drained (any-split before after batch b ∙ some_exited);
}

pub flush_batch-kept :
    (b : List Click) (p : Pipeline)
    → ((flush_batch b p).1.quit ≡ p.quit)
      × ((flush_batch b p).1.checked ≡ p.checked)
      × ((flush_batch b p).1.buffer ≡ p.buffer)
unfolding flush_batch
flush_batch-kept [] p = (refl, refl, refl)
flush_batch-kept (c ∷ cs) p = (refl, refl, refl)

pub collect-kept :
    (b : List Click) (c : Click) (p : Pipeline)
    → ((collect b c p).1.quit ≡ p.quit)
      × ((collect b c p).1.checked ≡ p.checked)
      × ((collect b c p).1.buffer ≡ p.buffer)
unfolding collect
collect-kept b c p = ground (arith, flush_batch-kept (b ++ (c ∷ [])) p)

module _ (enrich : ClickEvent → Click) where
  Step-IsClosed : {p p' : Pipeline} → Step enrich p p' → IsClosed p → IsClosed p'
  unfolding check_quit send
  Step-IsClosed (checks p e) h = ground arith
  Step-IsClosed (sends p e [] after k) h = ground arith
  Step-IsClosed (sends p e (b ∷ before) after k) h = ground arith
  Step-IsClosed (receives p e rest before after batch k l) h =
      let (closed, unchecked, _) = collect-kept batch (enrich e) (record p { buffer = rest }) in
      resume-IsClosed before after batch (collect batch (enrich e) (record p { buffer = rest }))
        (closed ∙ h.closed) (unchecked ∙ h.unchecked)
        (λ some_exited.
          absurd (
            ground (arith, h.drained (subst (λ ws. any has_exited ws ≡ true) (sym l) some_exited))))
  Step-IsClosed (ticks p before after batch k) h =
      let (closed, unchecked, same) = flush_batch-kept batch p in
      resume-IsClosed before after batch (flush_batch batch p) (closed ∙ h.closed)
        (unchecked ∙ h.unchecked)
        (λ some_exited.
          same ∙ h.drained (subst (λ ws. any has_exited ws ≡ true) (sym k) some_exited))
  Step-IsClosed (closes p) h = ground arith
  Step-IsClosed (exits p before after batch g k l) h = record {
    closed = (flush_batch-kept batch p).0 ∙ h.closed;
    unchecked = (flush_batch-kept batch p).1 ∙ h.unchecked;
    drained = λ some_exited. (flush_batch-kept batch p).2 ∙ k;
  }

  Step-accepted : {p p' : Pipeline} (s : Step enrich p p') → IsClosed p → accepted enrich s ≡ []
  unfolding accepted
  Step-accepted (checks p e) h = refl
  Step-accepted (sends p e [] after k) h = absurd (ground (arith, h.unchecked))
  Step-accepted (sends p e (b ∷ before) after k) h = absurd (ground (arith, h.unchecked))
  Step-accepted (receives p e rest before after batch k l) h = refl
  Step-accepted (ticks p before after batch k) h = refl
  Step-accepted (closes p) h = refl
  Step-accepted (exits p before after batch g k l) h = refl

  Steps-IsClosed :
      {p p' : Pipeline} (ss : Steps enrich p p')
      → IsClosed p
      → IsClosed p' × (all_accepted enrich ss ≡ [])
  unfolding all_accepted
  Steps-IsClosed (done p) h = (h, refl)
  Steps-IsClosed (next p p1 p2 s ss) h =
      let (closed, none_after) = Steps-IsClosed ss (Step-IsClosed s h) in
      (closed, rw (Step-accepted s h, none_after) refl)

  in_workers-exited_all :
      (q : Click → Bool) (ws : List Worker) → all has_exited ws ≡ true → in_workers q ws ≡ 0
  unfolding in_workers
  in_workers-exited_all q [] h = refl
  in_workers-exited_all q (collecting batch ∷ ws) h = absurd (ground arith)
  in_workers-exited_all q (exited ∷ ws) h = in_workers-exited_all q ws h

  -- If `quit` is closed, no producer is between the two selects of `Enqueue`, and no worker has
  -- returned with events left in the channel: when later all workers, at least one, have returned, the
  -- channel is empty and every click that was in it or with a worker has been handed to `flush`.
  pub drained-handed :
      (q : Click → Bool) (p p' : Pipeline)
      → IsClosed p
      → Steps enrich p p'
      → any has_exited p'.workers ≡ true
      → all has_exited p'.workers ≡ true
      → (p'.buffer ≡ []) × (in_batches q p'.handed ≡ held enrich q p)
  drained-handed q p p' h ss some_exited all_exited =
      let (closed, none_after) = Steps-IsClosed ss h in
      let empty = closed.drained some_exited in
      let kept = Steps-held enrich q ss in
      (empty, ground (arith, in_workers-exited_all q p'.workers all_exited))

-- the event that the channel gives next
abbrev pub oldest : List ClickEvent → Option ClickEvent
oldest [] = none
oldest (e ∷ es) = some e

oldest-append :
    (e : ClickEvent) (es sent : List ClickEvent) → oldest es ≡ some e → oldest (es ++ sent) ≡ some e
oldest-append e [] sent h = absurd (ground arith)
oldest-append e (x ∷ es) sent h = h

not_collecting :
    (before after : List Worker) (batch : List Click) (ws : List Worker)
    → ws ≡ before ++ (collecting batch ∷ after)
    → all has_exited ws ≡ true
    → ⊥
not_collecting before after batch ws h gone =
    go before (subst (λ vs. all has_exited vs ≡ true) h gone)
  where
    go : (vs : List Worker) → all has_exited (vs ++ (collecting batch ∷ after)) ≡ true → ⊥
    go [] k = ground arith
    go (w ∷ vs) k = go vs (ground arith)

-- the event of a producer, between the two selects of `Enqueue`, of a pipeline with one worker that
-- was shut down meanwhile
abbrev pub left_behind : ClickEvent → ℕ → ℕ → Pipeline
left_behind e c n =
    leave [] [] (flush_batch [] (record (check_quit e (started c 1 n)).1 { quit = true }))

module _ (enrich : ClickEvent → Click) where
  left_behind-Steps : (e : ClickEvent) (c n : ℕ) → Steps enrich (started c 1 n) (left_behind e c n)
  unfolding check_quit flush_batch started
  left_behind-Steps e c n = next _ _ _ (checks (started c 1 n) e) (
      next _ _ _ (closes (check_quit e (started c 1 n)).1) (
        next _ _ _
          (exits (record (check_quit e (started c 1 n)).1 { quit = true }) [] [] [] refl refl refl)
          (done (left_behind e c n))))

  -- With all workers gone, the channel is not read any more, and nothing is handed to `flush`.
  Step-unread :
      (e : ClickEvent) {p p' : Pipeline} (s : Step enrich p p')
      → all has_exited p.workers ≡ true
      → oldest p.buffer ≡ some e
      → (all has_exited p'.workers ≡ true) × (p'.handed ≡ p.handed) × (oldest p'.buffer ≡ some e)
  unfolding check_quit send
  Step-unread e (checks p x) h o = ground arith
  Step-unread e (sends p x before after k) h o = ground (arith, oldest-append e p.buffer (x ∷ []))
  Step-unread e (receives p x rest before after batch k l) h o =
      absurd (not_collecting before after batch p.workers l h)
  Step-unread e (ticks p before after batch l) h o =
      absurd (not_collecting before after batch p.workers l h)
  Step-unread e (closes p) h o = ground arith
  Step-unread e (exits p before after batch g k l) h o =
      absurd (not_collecting before after batch p.workers l h)

  Steps-unread :
      (e : ClickEvent) {p p' : Pipeline} (ss : Steps enrich p p')
      → all has_exited p.workers ≡ true
      → oldest p.buffer ≡ some e
      → (p'.handed ≡ p.handed) × (oldest p'.buffer ≡ some e)
  Steps-unread e (done p) h o = (refl, o)
  Steps-unread e (next p q r s ss) h o =
      let (gone, same, still) = Step-unread e s h o in
      let (same', still') = Steps-unread e ss gone still in (same' ∙ same, still')

-- A producer that is between the two selects of `Enqueue` when `Shutdown` closes `quit` can put its
-- event into the channel after the last worker has returned: `Enqueue` counts it and returns true,
-- but whatever happens then, the event stays first in the channel, and nothing is ever handed to `flush`.
pub late_send-lost :
    (enrich : ClickEvent → Click) (e : ClickEvent) (c n : ℕ) {p : Pipeline}
    → leb 1 c ≡ true
    → Steps enrich (send e [] (left_behind e c n)).1 p
    → Steps enrich (started c 1 n) (left_behind e c n)
      × ((left_behind e c n).checked ≡ e ∷ [])
      × (all has_exited (left_behind e c n).workers ≡ true)
      × ((send e [] (left_behind e c n)).0 ≡ true)
      × ((send e [] (left_behind e c n)).1.enqueued ≡ 1)
      × (oldest p.buffer ≡ some e)
      × (p.handed ≡ [])
unfolding check_quit send flush_batch started
late_send-lost enrich e c n one ss =
    let (same, still) = Steps-unread enrich e ss (ground arith) (ground arith) in
    (
      left_behind-Steps enrich e c n,
      refl,
      refl,
      ground arith,
      ground arith,
      still,
      ground (arith, same),
    )
