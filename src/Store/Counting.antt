-- ===== src/Store/Counting.antt =====
-- `RecordBatch` of internal/repository/click.go: the counters that it writes, and the integrity of
-- the tables that it keeps.
pub mod Keys
use go_link_shortener.Base.{
  all-append, count-append, ℕ, ◌+◌, ◌≡◌, refl, Bool, true, false, List, [], ◌∷◌, ◌++◌, arith, ◌==◌,
  change, all, if◌then◌else◌, any-change-false,
}
use go_link_shortener.Domain.Link.{Link}
use go_link_shortener.Store.Db.{Click, Db, is_live, has_id, has_live_code}
use go_link_shortener.Store.Links.{points_into}
use go_link_shortener.Store.Clicks.{
  tally_one, tally, counted, increment, commit_batch, record_batch,
}
use go_link_shortener.Store.Integrity.{
  clicks_of, IdsDistinct, LiveCodesDistinct, CountsAgree, IsSound, change-IdsDistinct, change-refs,
}

-- what the counts say for one link
abbrev pub total : ℕ → List (ℕ × ℕ) → ℕ
total id [] = 0
total id ((j, n) ∷ rest) = (if j == id then n else 0) + total id rest

total-tally_one :
    (id k : ℕ) (counts : List (ℕ × ℕ))
    → total id (tally_one k counts) ≡ total id counts + (if k == id then 1 else 0)
unfolding tally_one
total-tally_one id k [] = ground arith
total-tally_one id k ((j, n) ∷ rest) = ground (arith, total-tally_one id k rest)

total-tally :
    (id : ℕ) (counts : List (ℕ × ℕ)) (cs : List Click)
    → total id (tally counts cs) ≡ total id counts + clicks_of id cs
unfolding tally
total-tally id counts [] = omega arith
total-tally id counts (c ∷ cs) =
    omega
      (arith, total-tally id (tally_one c.link_id counts) cs, total-tally_one id c.link_id counts)

increment-IdsDistinct :
    (now : ℕ) (counts : List (ℕ × ℕ)) (rs : List Link)
    → IdsDistinct rs
    → IdsDistinct (increment now counts rs).1
unfolding increment counted
increment-IdsDistinct now [] rs h = h
increment-IdsDistinct now ((id, n) ∷ rest) rs h =
    increment-IdsDistinct now rest _
      (change-IdsDistinct (has_id id) (counted now n) (λ r. refl) rs h)

change-LiveCodesDistinct_of_counted :
    (p : Link → Bool) (now n : ℕ) (rs : List Link)
    → LiveCodesDistinct rs
    → LiveCodesDistinct (change p (counted now n) rs)
unfolding counted is_live
change-LiveCodesDistinct_of_counted p now n [] h = tt
change-LiveCodesDistinct_of_counted p now n (r ∷ rs) h = ground (
  arith,
  any-change-false p (counted now n) (has_live_code r.code) (λ x e. e) rs,
  change-LiveCodesDistinct_of_counted p now n rs,
)

increment-LiveCodesDistinct :
    (now : ℕ) (counts : List (ℕ × ℕ)) (rs : List Link)
    → LiveCodesDistinct rs
    → LiveCodesDistinct (increment now counts rs).1
unfolding increment
increment-LiveCodesDistinct now [] rs h = h
increment-LiveCodesDistinct now ((id, n) ∷ rest) rs h =
    increment-LiveCodesDistinct now rest _
      (change-LiveCodesDistinct_of_counted (has_id id) now n rs h)

pub increment-refs :
    (now : ℕ) (counts : List (ℕ × ℕ)) (rs : List Link) (cs : List Click)
    → all (points_into rs) cs ≡ true
    → all (points_into (increment now counts rs).1) cs ≡ true
unfolding increment counted
increment-refs now [] rs cs h = h
increment-refs now ((id, n) ∷ rest) rs cs h =
    increment-refs now rest _ cs (change-refs (has_id id) (counted now n) (λ r. refl) rs cs h)

-- each row's counter, with what the counts still owe it, is a function of its id
abbrev Owed : (ℕ → ℕ) → List (ℕ × ℕ) → List Link → Type 0
Owed f counts [] = Unit
Owed f counts (r ∷ rs) = (r.click_count + total r.id counts ≡ f r.id) × Owed f counts rs

Owed-change :
    (f : ℕ → ℕ) (now id n : ℕ) (rest : List (ℕ × ℕ)) (rs : List Link)
    → Owed f ((id, n) ∷ rest) rs
    → Owed f rest (change (has_id id) (counted now n) rs)
unfolding counted
Owed-change f now id n rest [] h = tt
Owed-change f now id n rest (r ∷ rs) h = ground (arith, Owed-change f now id n rest rs)

Owed-increment :
    (f : ℕ → ℕ) (now : ℕ) (counts : List (ℕ × ℕ)) (rs : List Link)
    → Owed f counts rs
    → Owed f [] (increment now counts rs).1
unfolding increment
Owed-increment f now [] rs h = h
Owed-increment f now ((id, n) ∷ rest) rs h =
    Owed-increment f now rest _ (Owed-change f now id n rest rs h)

Owed-tally :
    (cs old : List Click) (rs : List Link)
    → CountsAgree old rs
    → Owed (λ id. clicks_of id (cs ++ old)) (tally [] cs) rs
Owed-tally cs old [] h = tt
Owed-tally cs old (r ∷ rs) h = (
  omega (arith, total-tally r.id [] cs, count-append (λ c. c.link_id == r.id) cs old, h.0),
  Owed-tally cs old rs h.1,
)

CountsAgree-Owed :
    (cs : List Click) (rs : List Link) → Owed (λ id. clicks_of id cs) [] rs → CountsAgree cs rs
CountsAgree-Owed cs [] h = tt
CountsAgree-Owed cs (r ∷ rs) h = (omega (arith, h.0), CountsAgree-Owed cs rs h.1)

commit_batch-IsSound :
    (now : ℕ) (cs : List Click) (db : Db)
    → all (points_into db.links) cs ≡ true
    → IsSound db
    → IsSound (commit_batch now cs db).1
unfolding commit_batch
commit_batch-IsSound now cs db fk s = record {
  ids = increment-IdsDistinct now (tally [] cs) db.links s.ids;
  codes = increment-LiveCodesDistinct now (tally [] cs) db.links s.codes;
  counts =
      CountsAgree-Owed (cs ++ db.clicks) _
        (Owed-increment _ now (tally [] cs) db.links (Owed-tally cs db.clicks db.links s.counts));
  refs =
      increment-refs now (tally [] cs) db.links (cs ++ db.clicks)
        (ground (arith, all-append (points_into db.links) cs db.clicks, s.refs));
}

pub record_batch-IsSound :
    (fault : Bool) (now : ℕ) (cs : List Click) (db : Db)
    → IsSound db
    → IsSound (record_batch fault now cs db).1
unfolding record_batch
record_batch-IsSound fault now [] db s = s
record_batch-IsSound true now (c ∷ cs) db s = s
record_batch-IsSound false now (c ∷ cs) db s = ground (arith, commit_batch-IsSound now (c ∷ cs) db)
