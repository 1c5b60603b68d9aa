-- ===== src/Store/History.antt =====
-- The statements of internal/repository/link.go and click.go in any order, as many as one likes,
-- each failing or not.
use go_link_shortener.Store.Integrity.Purge.{purge_expired-IsSound}
use go_link_shortener.Base.{ℕ, refl, Bool, List, [], ◌∷◌}
use go_link_shortener.Domain.Link.{Link}
use go_link_shortener.Store.Db.{Click, Db, Minted}
use go_link_shortener.Store.Links.{create, update, soft_delete, purge_expired}
use go_link_shortener.Store.Clicks.{record_batch}
use go_link_shortener.Store.Integrity.{IsSound, create-IsSound, update-IsSound, soft_delete-IsSound}
use go_link_shortener.Store.Counting.{record_batch-IsSound}

pub data Statement : Type 0 where
  creates : Bool → Minted → Link → Statement
  updates : Bool → ℕ → Link → Statement
  soft_deletes : Bool → ℕ → ℕ → ℕ → Statement
  purges : Bool → ℕ → ℕ → Statement
  records : Bool → ℕ → List Click → Statement

unfoldable pub execute : Statement → Db → Db
execute (creates fault m l) db = (create fault m l db).1
execute (updates fault now l) db = (update fault now l db).1
execute (soft_deletes fault now tenant id) db = (soft_delete fault now tenant id db).1
execute (purges fault tenant cutoff) db = (purge_expired fault tenant cutoff db).1
execute (records fault now cs) db = (record_batch fault now cs db).1

unfoldable pub replay : List Statement → Db → Db
unfolding execute
replay [] db = db
replay (s ∷ ss) db = replay ss (execute s db)

abbrev pub empty_db : Db
empty_db = record { links = []; clicks = [] }

execute-IsSound : (s : Statement) (db : Db) → IsSound db → IsSound (execute s db)
unfolding execute
execute-IsSound (creates fault m l) db h = create-IsSound fault m l db h
execute-IsSound (updates fault now l) db h = update-IsSound fault now l db h
execute-IsSound (soft_deletes fault now tenant id) db h =
    soft_delete-IsSound fault now tenant id db h
execute-IsSound (purges fault tenant cutoff) db h = purge_expired-IsSound fault tenant cutoff db h
execute-IsSound (records fault now cs) db h = record_batch-IsSound fault now cs db h

-- After any statements, failing or not, on tables that were sound: ids are distinct, codes are
-- distinct among live rows, every link's counter is the number of its click rows, and every click
-- points to a link.
pub replay-IsSound : (ss : List Statement) (db : Db) → IsSound db → IsSound (replay ss db)
unfolding replay
replay-IsSound [] db h = h
replay-IsSound (s ∷ ss) db h = replay-IsSound ss (execute s db) (execute-IsSound s db h)

pub empty_db-IsSound : IsSound empty_db
empty_db-IsSound = record { ids = tt; codes = tt; counts = tt; refs = refl }
