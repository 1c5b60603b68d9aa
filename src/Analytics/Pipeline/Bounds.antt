-- ===== src/Analytics/Pipeline/Bounds.antt =====
-- The bounds of the pipeline: the channel, the batches of the workers, the batches handed over.
use go_link_shortener.Base.{
  all-append, subst, ℕ, zero, suc, ◌≡◌, refl, Bool, true, ◌&&◌, List, [], ◌∷◌, ◌++◌, length,
  length-append, all, ltb, leb, arith,
}
use go_link_shortener.Store.Db.{Click}
use go_link_shortener.Analytics.Enrich.{ClickEvent}
use go_link_shortener.Analytics.Pipeline.{
  Worker, collecting, exited, Pipeline, started, fresh_workers, check_quit, send, flush_batch,
  collect, resume, leave, Step, checks, sends, receives, ticks, closes, exits, Steps, done, next,
}

abbrev pub batch_fits : ℕ → Worker → Bool
batch_fits n (collecting batch) = ltb (length batch) n
batch_fits n exited = true

-- what `flush` may be called with
abbrev pub handed_fits : ℕ → List Click → Bool
handed_fits n batch = leb 1 (length batch) && leb (length batch) n

pub record IsBounded (capacity batch_size : ℕ) (p : Pipeline) : Type 0 where
  pub same_capacity : p.capacity ≡ capacity
  pub same_batch_size : p.batch_size ≡ batch_size
  pub buffer_fits : leb (length p.buffer) capacity ≡ true
  pub workers_fit : all (batch_fits batch_size) p.workers ≡ true
  pub batches_fit : all (handed_fits batch_size) p.handed ≡ true

flush_batch-IsBounded :
    (c n : ℕ) (b : List Click) (p : Pipeline)
    → leb 1 n ≡ true
    → leb (length b) n ≡ true
    → IsBounded c n p
    → IsBounded c n (flush_batch b p).1 × (ltb (length (flush_batch b p).0) n ≡ true)
unfolding flush_batch
flush_batch-IsBounded c n [] p one fits h = (h, ground arith)
flush_batch-IsBounded c n (x ∷ b) p one fits h =
    (ground (arith, all-append (handed_fits n) p.handed ((x ∷ b) ∷ [])), ground arith)

flush_batch-workers : (b : List Click) (p : Pipeline) → (flush_batch b p).1.workers ≡ p.workers
unfolding flush_batch
flush_batch-workers [] p = refl
flush_batch-workers (c ∷ cs) p = refl

collect-IsBounded :
    (c n : ℕ) (b : List Click) (x : Click) (p : Pipeline)
    → leb 1 n ≡ true
    → ltb (length b) n ≡ true
    → IsBounded c n p
    → IsBounded c n (collect b x p).1 × (ltb (length (collect b x p).0) n ≡ true)
unfolding collect
collect-IsBounded c n b x p one fits h = ground (
  arith,
  length-append b (x ∷ []),
  flush_batch-IsBounded c n (b ++ (x ∷ [])) p,
  h.same_batch_size,
)

-- A worker goes on with a batch that fits.
resume-IsBounded :
    (c n : ℕ) (before after : List Worker) (batch : List Click) (r : List Click × Pipeline)
    → all (batch_fits n) (before ++ (collecting batch ∷ after)) ≡ true
    → IsBounded c n r.1 × (ltb (length r.0) n ≡ true)
    → IsBounded c n (resume before after r)
resume-IsBounded c n before after batch (b, p) all_fit (h, fits) = ground (
  arith,
  all-append (batch_fits n) before (collecting batch ∷ after),
  all-append (batch_fits n) before (collecting b ∷ after),
)

leave-IsBounded :
    (c n : ℕ) (before after : List Worker) (batch : List Click) (r : List Click × Pipeline)
    → all (batch_fits n) (before ++ (collecting batch ∷ after)) ≡ true
    → IsBounded c n r.1
    → IsBounded c n (leave before after r)
leave-IsBounded c n before after batch (b, p) all_fit h = ground (
  arith,
  all-append (batch_fits n) before (collecting batch ∷ after),
  all-append (batch_fits n) before (exited ∷ after),
)

worker-fits :
    (n : ℕ) (before after : List Worker) (batch : List Click)
    → all (batch_fits n) (before ++ (collecting batch ∷ after)) ≡ true
    → ltb (length batch) n ≡ true
worker-fits n before after batch h =
    ground (arith, all-append (batch_fits n) before (collecting batch ∷ after))

module _ (enrich : ClickEvent → Click) (c n : ℕ) (one : leb 1 n ≡ true) where
  Step-IsBounded : {p p' : Pipeline} → Step enrich p p' → IsBounded c n p → IsBounded c n p'
  unfolding check_quit send
  Step-IsBounded (checks p e) h = ground arith
  Step-IsBounded (sends p e before after k) h = ground (arith, length-append p.buffer (e ∷ []))
  Step-IsBounded (receives p e rest before after batch k l) h =
      let fit = subst (λ ws. all (batch_fits n) ws ≡ true) l h.workers_fit in
      resume-IsBounded c n before after batch
        (collect batch (enrich e) (record p { buffer = rest })) fit
        (collect-IsBounded c n batch (enrich e) (record p { buffer = rest }) one
          (worker-fits n before after batch fit) (ground arith))
  Step-IsBounded (ticks p before after batch k) h =
      let fit = subst (λ ws. all (batch_fits n) ws ≡ true) k h.workers_fit in
      let small = worker-fits n before after batch fit in
      resume-IsBounded c n before after batch (flush_batch batch p) fit
        (flush_batch-IsBounded c n batch p one (ground arith) h)
  Step-IsBounded (closes p) h = ground arith
  Step-IsBounded (exits p before after batch g k l) h =
      let fit = subst (λ ws. all (batch_fits n) ws ≡ true) l h.workers_fit in
      let small = worker-fits n before after batch fit in
      leave-IsBounded c n before after batch (flush_batch batch p) fit
        (flush_batch-IsBounded c n batch p one (ground arith) h).0

  Steps-IsBounded : {p p' : Pipeline} → Steps enrich p p' → IsBounded c n p → IsBounded c n p'
  Steps-IsBounded (done p) h = h
  Steps-IsBounded (next p p1 p2 s ss) h = Steps-IsBounded ss (Step-IsBounded s h)

fresh_workers-fit : (n w : ℕ) → leb 1 n ≡ true → all (batch_fits n) (fresh_workers w) ≡ true
fresh_workers-fit n zero one = refl
fresh_workers-fit n (suc w) one = ground (arith, fresh_workers-fit n w one)

-- From `Start` on, whatever happens: the channel never holds more than its capacity, the batch of
-- every worker stays below the batch size, and `flush` is called only with batches of at least one
-- and at most batch-size clicks.
pub started-IsBounded :
    (enrich : ClickEvent → Click) (c w n : ℕ) (p : Pipeline)
    → leb 1 n ≡ true
    → Steps enrich (started c w n) p
    → IsBounded c n p
unfolding started
started-IsBounded enrich c w n p one ss = Steps-IsBounded enrich c n one ss (record {
  same_capacity = refl;
  same_batch_size = refl;
  buffer_fits = ground arith;
  workers_fit = fresh_workers-fit n w one;
  batches_fit = refl;
})
