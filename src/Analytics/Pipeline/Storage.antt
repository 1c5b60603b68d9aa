-- ===== src/Analytics/Pipeline/Storage.antt =====
-- From the channel of internal/analytics/pipeline.go to the table of clicks.
use go_link_shortener.Base.{
  count-append, ℕ, zero, suc, ◌+◌, ◌≡◌, refl, ap, ◌∙◌, Bool, true, false, List, [], ◌∷◌, ◌++◌, map,
  count, all, any, arith,
}
use go_link_shortener.Store.Db.{Click, Db}
use go_link_shortener.Store.Links.{points_into}
use go_link_shortener.Store.Clicks.{tally, commit_batch, record_batch}
use go_link_shortener.Store.Counting.{increment-refs}
use go_link_shortener.Service.World.{World}
use go_link_shortener.Analytics.Enrich.{ClickEvent}
use go_link_shortener.Analytics.Flush.{Wiring, FlushEnv, flush}
use go_link_shortener.Analytics.Flush.Eviction.{db-flush}
use go_link_shortener.Analytics.Pipeline.{Pipeline, started, fresh_workers, Steps}
use go_link_shortener.Analytics.Pipeline.Conservation.{
  all_accepted, in_workers, in_batches, Steps-held,
}
use go_link_shortener.Analytics.Pipeline.Drain.{has_exited, IsClosed, drained-handed}

-- the batches that the workers hand to `flush`, one after the other
unfoldable pub flush_all : Wiring → (ℕ → FlushEnv) → ℕ → List (List Click) → World → World
unfolding flush
flush_all p env k [] w = w
flush_all p env k (batch ∷ batches) w = flush_all p env (suc k) batches (flush p (env k) batch w)

record Written (batch : List Click) (a b : Db) : Type 0 where
  rows : b.clicks ≡ batch ++ a.clicks
  links :
      (cs : List Click) → all (points_into a.links) cs ≡ true → all (points_into b.links) cs ≡ true

record_batch-Written :
    (now : ℕ) (batch : List Click) (db : Db)
    → all (points_into db.links) batch ≡ true
    → Written batch db (record_batch false now batch db).1
unfolding record_batch commit_batch
record_batch-Written now [] db fk = record { rows = refl; links = λ cs h. h }
record_batch-Written now (c ∷ cs) db fk =
    rw fk
      (record { rows = refl; links = λ ds h. increment-refs now (tally [] (c ∷ cs)) db.links ds h })

flush-Written :
    (p : Wiring) (env : FlushEnv) (batch : List Click) (w : World)
    → env.write_fails ≡ false
    → all (points_into w.db.links) batch ≡ true
    → Written batch w.db (flush p env batch w).db
flush-Written p env batch w up fk =
    rw (db-flush p env batch w, up) (record_batch-Written env.db_now batch w.db fk)

all-kept :
    (a b : Db) (batches : List (List Click))
    → ((cs : List Click)
        → all (points_into a.links) cs ≡ true
        → all (points_into b.links) cs ≡ true)
    → all (all (points_into a.links)) batches ≡ true
    → all (all (points_into b.links)) batches ≡ true
all-kept a b [] keeps h = refl
all-kept a b (cs ∷ batches) keeps h = ground (arith, keeps cs, all-kept a b batches keeps)

module _ (q : Click → Bool) (p : Wiring) (env : ℕ → FlushEnv)
    (up : (k : ℕ) → (env k).write_fails ≡ false) where
  flush_all-count :
      (k : ℕ) (batches : List (List Click)) (w : World)
      → all (all (points_into w.db.links)) batches ≡ true
      → count q (flush_all p env k batches w).db.clicks ≡ count q w.db.clicks + in_batches q batches
  unfolding flush_all in_batches
  flush_all-count k [] w fk = omega arith
  flush_all-count k (batch ∷ batches) w fk =
      let written = flush-Written p (env k) batch w (up k) (ground arith) in
      let w' = flush p (env k) batch w in
      let later =
        flush_all-count (suc k) batches w'
          (all-kept w.db w'.db batches written.links (ground arith)) in
      let rows = ap (count q) written.rows ∙ count-append q batch w.db.clicks in
      omega (arith, later, rows)

in_workers-fresh : (q : Click → Bool) (n : ℕ) → in_workers q (fresh_workers n) ≡ 0
unfolding in_workers
in_workers-fresh q zero = refl
in_workers-fresh q (suc n) = omega (arith, in_workers-fresh q n)

-- From `Start` to the end of a shutdown, through whatever interleaving: if at some time `quit` was
-- closed, no producer was between the two selects of `Enqueue`, and no worker had returned while
-- events were in the channel, and now the workers, of which there is at least one, have all returned,
-- then writing the batches that were handed to `flush` adds to the
-- table exactly the accepted clicks, enriched, each once, provided that no write fails and that their
-- links exist.
pub accepted-stored :
    (enrich : ClickEvent → Click) (q : Click → Bool) (c n m : ℕ) {p p' : Pipeline}
    (ss : Steps enrich (started c n m) p) (wiring : Wiring) (env : ℕ → FlushEnv) (w : World)
    → IsClosed p
    → Steps enrich p p'
    → any has_exited p'.workers ≡ true
    → all has_exited p'.workers ≡ true
    → ((k : ℕ) → (env k).write_fails ≡ false)
    → all (all (points_into w.db.links)) p'.handed ≡ true
    → count q (flush_all wiring env 0 p'.handed w).db.clicks
      ≡ count q w.db.clicks + count q (map enrich (all_accepted enrich ss))
unfolding started in_batches
accepted-stored enrich q c n m {p} {p'} ss wiring env w closed drain some_exited all_exited up fk =
    let (empty, handed) = drained-handed enrich q p p' closed drain some_exited all_exited in
    omega (
      arith,
      flush_all-count q wiring env up 0 p'.handed w fk,
      handed,
      Steps-held enrich q ss,
      in_workers-fresh q n,
    )
