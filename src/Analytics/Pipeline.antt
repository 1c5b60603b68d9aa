-- ===== src/Analytics/Pipeline.antt =====
-- The concurrent part of internal/analytics/pipeline.go: producers, one bounded channel, workers
-- with a batch each, and shutdown. `Enqueue` is two selects, and a producer can pause between them;
-- a worker takes one event, or flushes, at a time. What `flush` does with a batch is in Flush.
pub mod Conservation
pub mod Bounds
pub mod Drain
pub mod Storage
pub mod Progress
use go_link_shortener.Base.{
  ℕ, zero, suc, ◌+◌, ◌≡◌, Bool, true, false, List, [], ◌∷◌, ◌++◌, length, ltb, leb, if◌then◌else◌,
}
use go_link_shortener.Store.Db.{Click}
use go_link_shortener.Analytics.Enrich.{ClickEvent}

-- the local state of a worker: its batch, until it returns
pub data Worker : Type 0 where
  collecting : List Click → Worker
  exited : Worker

-- `checked` are the events of producers between the two selects; `handed` are the batches that
-- `flush` was called with.
pub record Pipeline : Type 0 where
  pub capacity : ℕ
  pub batch_size : ℕ
  pub quit : Bool
  pub checked : List ClickEvent
  pub buffer : List ClickEvent
  pub workers : List Worker
  pub enqueued : ℕ
  pub dropped : ℕ
  pub handed : List (List Click)

abbrev pub fresh_workers : ℕ → List Worker
fresh_workers zero = []
fresh_workers (suc n) = collecting [] ∷ fresh_workers n

-- NewPipeline and Start
unfoldable pub started : ℕ → ℕ → ℕ → Pipeline
started capacity workers batch_size = record {
  capacity = capacity;
  batch_size = batch_size;
  quit = false;
  checked = [];
  buffer = [];
  workers = fresh_workers workers;
  enqueued = 0;
  dropped = 0;
  handed = [];
}

-- the first select of Enqueue: true if the producer goes on
unfoldable pub check_quit : ClickEvent → Pipeline → Bool × Pipeline
check_quit e p = if p.quit then (false, p) else (true, record p { checked = e ∷ p.checked })

-- the second select: whether the event got into the channel
unfoldable pub send : ClickEvent → List ClickEvent → Pipeline → Bool × Pipeline
send e others p =
    if ltb (length p.buffer) p.capacity
    then (
      true,
      record p { checked = others; buffer = p.buffer ++ (e ∷ []); enqueued = suc p.enqueued },
    )
    else (false, record p { checked = others; dropped = suc p.dropped })

-- the closure `flush` of a worker: its new batch, and the pipeline
unfoldable pub flush_batch : List Click → Pipeline → List Click × Pipeline
flush_batch [] p = ([], p)
flush_batch (c ∷ cs) p = ([], record p { handed = p.handed ++ ((c ∷ cs) ∷ []) })

-- the body of `case e := <-p.input`, after the event has left the channel
unfoldable pub collect : List Click → Click → Pipeline → List Click × Pipeline
unfolding flush_batch
collect batch c p =
    let batch' = batch ++ (c ∷ []) in
    if leb p.batch_size (length batch') then flush_batch batch' p else (batch', p)

abbrev pub resume : List Worker → List Worker → List Click × Pipeline → Pipeline
resume before after (batch, p) = record p { workers = before ++ (collecting batch ∷ after) }

abbrev pub leave : List Worker → List Worker → List Click × Pipeline → Pipeline
leave before after (batch, p) = record p { workers = before ++ (exited ∷ after) }

-- One move of a producer, of a worker, or of Shutdown. A worker returns only when it has seen `quit`
-- closed and the channel empty.
module _ (enrich : ClickEvent → Click) where
  pub data Step : Pipeline → Pipeline → Type 0 where
    checks : (p : Pipeline) (e : ClickEvent) → Step p (check_quit e p).1
    sends :
        (p : Pipeline) (e : ClickEvent) (before after : List ClickEvent)
        → p.checked ≡ before ++ (e ∷ after)
        → Step p (send e (before ++ after) p).1
    receives :
        (p : Pipeline) (e : ClickEvent) (rest : List ClickEvent) (before after : List Worker)
        (batch : List Click)
        → p.buffer ≡ e ∷ rest
        → p.workers ≡ before ++ (collecting batch ∷ after)
        → Step p (resume before after (collect batch (enrich e) (record p { buffer = rest })))
    ticks :
        (p : Pipeline) (before after : List Worker) (batch : List Click)
        → p.workers ≡ before ++ (collecting batch ∷ after)
        → Step p (resume before after (flush_batch batch p))
    closes : (p : Pipeline) → Step p (record p { quit = true })
    exits :
        (p : Pipeline) (before after : List Worker) (batch : List Click)
        → p.quit ≡ true
        → p.buffer ≡ []
        → p.workers ≡ before ++ (collecting batch ∷ after)
        → Step p (leave before after (flush_batch batch p))

  pub data Steps : Pipeline → Pipeline → Type 0 where
    done : (p : Pipeline) → Steps p p
    next : (p q r : Pipeline) → Step p q → Steps q r → Steps p r
