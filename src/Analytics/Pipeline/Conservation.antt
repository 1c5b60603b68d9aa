-- ===== src/Analytics/Pipeline/Conservation.antt =====
-- Where the clicks of the pipeline are.
use go_link_shortener.Base.{
  count-append, ℕ, ◌+◌, ◌≡◌, refl, Bool, List, [], ◌∷◌, ◌++◌, map, length, count, ltb,
  if◌then◌else◌, arith,
}
use go_link_shortener.Store.Db.{Click}
use go_link_shortener.Analytics.Enrich.{ClickEvent}
use go_link_shortener.Analytics.Pipeline.{
  Worker, collecting, exited, Pipeline, check_quit, send, flush_batch, collect, Step, checks, sends,
  receives, ticks, closes, exits, Steps, done, next,
}

module _ (q : Click → Bool) where
  -- how many clicks that pass `q` the workers hold
  unfoldable pub in_workers : List Worker → ℕ
  in_workers [] = 0
  in_workers (collecting batch ∷ ws) = count q batch + in_workers ws
  in_workers (exited ∷ ws) = in_workers ws

  -- and how many are in the batches that were handed to `flush`
  unfoldable pub in_batches : List (List Click) → ℕ
  in_batches [] = 0
  in_batches (batch ∷ bs) = count q batch + in_batches bs

  in_batches-append :
      (xs ys : List (List Click)) → in_batches (xs ++ ys) ≡ in_batches xs + in_batches ys
  unfolding in_batches
  in_batches-append [] ys = omega arith
  in_batches-append (x ∷ xs) ys = omega (arith, in_batches-append xs ys)

  in_workers-append : (xs ys : List Worker) → in_workers (xs ++ ys) ≡ in_workers xs + in_workers ys
  unfolding in_workers
  in_workers-append [] ys = omega arith
  in_workers-append (collecting b ∷ xs) ys = omega (arith, in_workers-append xs ys)
  in_workers-append (exited ∷ xs) ys = omega (arith, in_workers-append xs ys)

  in_workers-collecting :
      (before after : List Worker) (b : List Click)
      → in_workers (before ++ (collecting b ∷ after)) ≡ count q b + in_workers (before ++ after)
  unfolding in_workers
  in_workers-collecting before after b =
      omega (arith, in_workers-append before (collecting b ∷ after), in_workers-append before after)

  in_workers-exited :
      (before after : List Worker)
      → in_workers (before ++ (exited ∷ after)) ≡ in_workers (before ++ after)
  unfolding in_workers
  in_workers-exited before after =
      omega (arith, in_workers-append before (exited ∷ after), in_workers-append before after)

  flush_batch-count :
      (b : List Click) (p : Pipeline)
      → count q (flush_batch b p).0 + in_batches (flush_batch b p).1.handed
        ≡ count q b + in_batches p.handed
  unfolding flush_batch in_batches
  flush_batch-count [] p = omega arith
  flush_batch-count (c ∷ cs) p = omega (arith, in_batches-append p.handed ((c ∷ cs) ∷ []))

  flush_batch-empty : (b : List Click) (p : Pipeline) → count q (flush_batch b p).0 ≡ 0
  unfolding flush_batch
  flush_batch-empty [] p = refl
  flush_batch-empty (c ∷ cs) p = refl

  collect-count :
      (b : List Click) (c : Click) (p : Pipeline)
      → count q (collect b c p).0 + in_batches (collect b c p).1.handed
        ≡ count q b + count q (c ∷ []) + in_batches p.handed
  unfolding collect
  collect-count b c p =
      ground (arith, flush_batch-count (b ++ (c ∷ [])) p, count-append q b (c ∷ []))

module _ (enrich : ClickEvent → Click) where
  -- the event that a step puts into the channel
  unfoldable pub accepted : {p p' : Pipeline} → Step enrich p p' → List ClickEvent
  accepted (checks p e) = []
  accepted (sends p e before after h) = if ltb (length p.buffer) p.capacity then e ∷ [] else []
  accepted (receives p e rest before after batch h k) = []
  accepted (ticks p before after batch h) = []
  accepted (closes p) = []
  accepted (exits p before after batch g h k) = []

  unfoldable pub all_accepted : {p p' : Pipeline} → Steps enrich p p' → List ClickEvent
  unfolding accepted
  all_accepted (done p) = []
  all_accepted (next p q r s ss) = accepted s ++ all_accepted ss

  module _ (q : Click → Bool) where
    -- in the channel, with the workers, or handed over
    abbrev pub held : Pipeline → ℕ
    held p = count q (map enrich p.buffer) + in_workers q p.workers + in_batches q p.handed

    count-map_append :
        (xs ys : List ClickEvent)
        → count q (map enrich (xs ++ ys)) ≡ count q (map enrich xs) + count q (map enrich ys)
    count-map_append [] ys = omega arith
    count-map_append (x ∷ xs) ys = omega (arith, count-map_append xs ys)

    flush_batch-rest : (b : List Click) (p : Pipeline) → (flush_batch b p).1.buffer ≡ p.buffer
    unfolding flush_batch
    flush_batch-rest [] p = refl
    flush_batch-rest (c ∷ cs) p = refl

    collect-rest : (b : List Click) (c : Click) (p : Pipeline) → (collect b c p).1.buffer ≡ p.buffer
    unfolding collect
    collect-rest b c p = ground (arith, flush_batch-rest (b ++ (c ∷ [])) p)

    Step-held :
        {p p' : Pipeline} (s : Step enrich p p')
        → held p' ≡ held p + count q (map enrich (accepted s))
    unfolding accepted check_quit send
    Step-held (checks p e) = ground arith
    Step-held (sends p e before after h) = ground (arith, count-map_append p.buffer (e ∷ []))
    Step-held (receives p e rest before after batch h k) = ground (
      arith,
      collect-count q batch (enrich e) (record p { buffer = rest }),
      collect-rest batch (enrich e) (record p { buffer = rest }),
      in_workers-collecting q before after batch,
      in_workers-collecting q before after
          (collect batch (enrich e) (record p { buffer = rest })).0,
    )
    Step-held (ticks p before after batch h) = ground (
      arith,
      flush_batch-count q batch p,
      flush_batch-rest batch p,
      in_workers-collecting q before after batch,
      in_workers-collecting q before after (flush_batch batch p).0,
    )
    Step-held (closes p) = ground arith
    Step-held (exits p before after batch g h k) = ground (
      arith,
      flush_batch-count q batch p,
      flush_batch-rest batch p,
      in_workers-collecting q before after batch,
      in_workers-exited q before after,
      flush_batch-empty q batch p,
    )

    -- Whatever the interleaving of producers, workers, ticks and shutdown, no accepted click is lost
    -- or doubled on its way to `flush`: the clicks with any given property in the channel, in the
    -- batches of the workers and in the batches handed over are those that were there at first and
    -- those of the events accepted since, enriched.
    pub Steps-held :
        {p p' : Pipeline} (ss : Steps enrich p p')
        → held p' ≡ held p + count q (map enrich (all_accepted ss))
    unfolding all_accepted
    Steps-held (done p) = omega arith
    Steps-held (next p p1 p2 s ss) =
        omega (arith, Step-held s, Steps-held ss, count-map_append (accepted s) (all_accepted ss))
