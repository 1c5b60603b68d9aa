-- ===== src/Analytics/Pipeline/Progress.antt =====
-- Shutdown of the pipeline: the workers return.
use go_link_shortener.Base.{
  ℕ, ◌+◌, ◌≡◌, ◌≤◌, ◌⊎◌, refl, ap, Bool, true, not, List, [], ◌∷◌, ◌++◌, length, count, all, arith,
  inl, inr, count-split, length-split, length-append,
}
use go_link_shortener.Store.Db.{Click}
use go_link_shortener.Analytics.Enrich.{ClickEvent}
use go_link_shortener.Analytics.Pipeline.Drain.{has_exited, flush_batch-kept, collect-kept}
use go_link_shortener.Analytics.Pipeline.{
  Worker, collecting, exited, Pipeline, check_quit, send, Step, checks, sends, receives, ticks,
  closes, exits, Steps, done, next,
}

abbrev runs : Worker → Bool
runs w = not (has_exited w)

-- the moves that are left, at most: an event that a producer holds can be sent and received
abbrev work : Pipeline → ℕ
work p = length p.checked + length p.checked + length p.buffer + count runs p.workers

ruleset ending = (arith, length-split, length-append, count-split)

module _ (enrich : ClickEvent → Click) where
  -- a producer that has passed the first select, or a worker whose move is not a tick
  abbrev is_own : {p p' : Pipeline} → Step enrich p p' → ℕ
  is_own (sends p e before after h) = 1
  is_own (receives p e rest before after batch h k) = 1
  is_own (exits p before after batch g h k) = 1
  is_own _ = 0

  unfoldable own_moves : {p p' : Pipeline} → Steps enrich p p' → ℕ
  own_moves (done p) = 0
  own_moves (next p q r s ss) = is_own s + own_moves ss

  Step-work :
      {p p' : Pipeline} (s : Step enrich p p')
      → p.quit ≡ true
      → (work p' + is_own s ≤ work p) × (p'.quit ≡ true)
  unfolding check_quit send
  Step-work (checks p e) c = ground arith
  Step-work (sends p e before after h) c = grind ending
  Step-work (receives p e rest before after batch h k) c =
      grind (ending, collect-kept batch (enrich e) (record p { buffer = rest }))
  Step-work (ticks p before after batch h) c = grind (ending, flush_batch-kept batch p)
  Step-work (closes p) c = ground arith
  Step-work (exits p before after batch g h k) c = grind (ending, flush_batch-kept batch p)

  own_moves-le :
      {p p' : Pipeline} (ss : Steps enrich p p')
      → p.quit ≡ true
      → (work p' + own_moves ss ≤ work p) × (p'.quit ≡ true)
  unfolding own_moves
  own_moves-le (done p) c = (omega arith, c)
  own_moves-le (next p q r s ss) c =
      let (less, closed) = Step-work s c in
      let (rest, still) = own_moves-le ss closed in (omega (arith, less, rest), still)

record Active (ws : List Worker) : Type 0 where
  before : List Worker
  after : List Worker
  batch : List Click
  split : ws ≡ before ++ (collecting batch ∷ after)

find_running : (ws : List Worker) → (all has_exited ws ≡ true) ⊎ Active ws
find_running [] = inl refl
find_running (collecting b ∷ ws) = inr (record { before = []; after = ws; batch = b; split = refl })
find_running (exited ∷ ws) = elim (find_running ws) [
  | inl gone ↦ inl gone
  | inr a ↦ inr (record {
    before = exited ∷ a.before;
    after = a.after;
    batch = a.batch;
    split = ap (λ vs. exited ∷ vs) a.split;
  })
]

module _ (enrich : ClickEvent → Click) (p : Pipeline) where
  abbrev CanMove : Type 0
  CanMove = (p' : Pipeline) × (s : Step enrich p p') × (is_own enrich s ≡ 1)

  worker_can_move : p.quit ≡ true → Active p.workers → CanMove
  worker_can_move c a = go p.buffer refl
    where
      go : (es : List ClickEvent) → p.buffer ≡ es → CanMove
      go [] h = (_, exits p a.before a.after a.batch c h a.split, refl)
      go (e ∷ rest) h = (_, receives p e rest a.before a.after a.batch h a.split, refl)

  closed-CanMove : p.quit ≡ true → (all has_exited p.workers ≡ true) ⊎ CanMove
  closed-CanMove c = elim (find_running p.workers) [
    | inl gone ↦ inl gone
    | inr a ↦ inr (worker_can_move c a)
  ]

-- Once `quit` is closed, in whatever interleaving: the producers that have passed the first select of
-- Enqueue and the workers make no more than `work p` moves, ticks not counted; and at any time all
-- workers have returned, which is what Shutdown waits for, or one of them can move.
shutdown-returns :
    (enrich : ClickEvent → Click) {p p' : Pipeline} (ss : Steps enrich p p')
    → p.quit ≡ true
    → (work p' + own_moves enrich ss ≤ work p)
      × ((all has_exited p'.workers ≡ true) ⊎ CanMove enrich p')
shutdown-returns enrich {p} {p'} ss c =
    let (few, still) = own_moves-le enrich ss c in (few, closed-CanMove enrich p' still)
