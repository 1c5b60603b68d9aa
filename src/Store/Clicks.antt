-- ===== src/Store/Clicks.antt =====
-- `RecordBatch` of internal/repository/click.go: one transaction, all or nothing. The Go map of
-- counts is a list of links in the order of their first click.
use go_link_shortener.Base.{
  ℕ, ◌+◌, Bool, true, false, List, [], ◌∷◌, ◌++◌, Option, none, some, ◌==◌, Bytes, find, change,
  all, if◌then◌else◌,
}
use go_link_shortener.Domain.Errors.{internal, Result, ok, err}
use go_link_shortener.Domain.Link.{Link, is_exhausted}
use go_link_shortener.Store.Db.{Click, Db, has_id}
use go_link_shortener.Store.Links.{points_into}

-- counts[c.LinkID]++
unfoldable pub tally_one : ℕ → List (ℕ × ℕ) → List (ℕ × ℕ)
tally_one id [] = (id, 1) ∷ []
tally_one id ((j, n) ∷ rest) = if j == id then (j, n + 1) ∷ rest else (j, n) ∷ tally_one id rest

unfoldable pub tally : List (ℕ × ℕ) → List Click → List (ℕ × ℕ)
unfolding tally_one
tally counts [] = counts
tally counts (c ∷ cs) = tally (tally_one c.link_id counts) cs

unfoldable pub counted : ℕ → ℕ → Link → Link
counted now n r = record r { click_count = r.click_count + n; updated_at = now }

-- the code of the row that UPDATE ... RETURNING gives, if the row is now exhausted
unfoldable pub exhausted_code : Option Link → List Bytes
exhausted_code none = []
exhausted_code (some r) = if is_exhausted r then r.code ∷ [] else []

-- the loop over `counts`
unfoldable pub increment : ℕ → List (ℕ × ℕ) → List Link → List Bytes × List Link
unfolding counted exhausted_code
increment now [] links = ([], links)
increment now ((id, n) ∷ rest) links =
    let links' = change (has_id id) (counted now n) links in
    let (codes, final) = increment now rest links' in
    (exhausted_code (find (has_id id) links') ++ codes, final)

unfoldable pub commit_batch : ℕ → List Click → Db → Result (List Bytes) × Db
unfolding increment tally
commit_batch now clicks db =
    let (codes, links) = increment now (tally [] clicks) db.links in
    (ok codes, record { links = links; clicks = clicks ++ db.clicks })

-- COPY checks the foreign key clicks.link_id for every row.
unfoldable pub record_batch : Bool → ℕ → List Click → Db → Result (List Bytes) × Db
unfolding commit_batch
record_batch fault now [] db = (ok [], db)
record_batch true now (c ∷ cs) db = (err internal, db)
record_batch false now (c ∷ cs) db =
    if all (points_into db.links) (c ∷ cs) then commit_batch now (c ∷ cs) db else (err internal, db)
