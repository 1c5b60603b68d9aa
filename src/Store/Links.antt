-- ===== src/Store/Links.antt =====
-- internal/repository/link.go, over the tables of Db. Each function takes whether its statement
-- fails for a reason of the database's own (`fault`), and the database's clock where it writes.
use go_link_shortener.Base.{
  ℕ, Bool, true, false, ◌&&◌, ◌||◌, not, Option, none, some, List, [], ◌∷◌, ◌==◌, leb, ℤ, pos,
  negsuc, Bytes, keep, find, change, any, count, take, drop, if◌then◌else◌,
}
use go_link_shortener.Domain.Errors.{not_found, conflict, internal, Result, ok, err}
use go_link_shortener.Domain.Link.{Link}
use go_link_shortener.Store.Db.{
  Click, Db, Minted, is_live, has_id, has_live_code, is_owned, is_before,
}

-- The row that INSERT ... RETURNING gives: six columns from the link, the rest by default.
unfoldable pub inserted : Minted → Link → Link
inserted m l = record l {
  id = m.id;
  click_count = 0;
  created_at = m.at;
  updated_at = m.at;
  deleted_at = none;
}

-- The primary key and the unique index on live codes refuse the row.
unfoldable pub create : Bool → Minted → Link → Db → Result Link × Db
unfolding inserted
create true m l db = (err internal, db)
create false m l db =
    if any (has_id m.id) db.links || any (has_live_code l.code) db.links
    then (err conflict, db)
    else (ok (inserted m l), record db { links = inserted m l ∷ db.links })

abbrev pub or_not_found : Option Link → Result Link
or_not_found none = err not_found
or_not_found (some l) = ok l

unfoldable pub get_by_id_for_tenant : Bool → ℕ → ℕ → Db → Result Link
get_by_id_for_tenant true tenant id db = err internal
get_by_id_for_tenant false tenant id db = or_not_found (find (is_owned tenant id) db.links)

unfoldable pub get_by_code : Bool → Bytes → Db → Result Link
get_by_code true code db = err internal
get_by_code false code db = or_not_found (find (has_live_code code) db.links)

-- ORDER BY created_at DESC; rows of one instant stay in table order.
unfoldable pub insert_newest : Link → List Link → List Link
insert_newest l [] = l ∷ []
insert_newest l (r ∷ rs) =
    if leb r.created_at l.created_at then l ∷ r ∷ rs else r ∷ insert_newest l rs

unfoldable pub newest_first : List Link → List Link
unfolding insert_newest
newest_first [] = []
newest_first (l ∷ ls) = insert_newest l (newest_first ls)

-- LIMIT and OFFSET; PostgreSQL refuses negative ones.
page : ℤ → ℤ → List Link → Result (List Link)
page (pos limit) (pos offset) rows = ok (take limit (drop offset rows))
page (pos limit) (negsuc offset) rows = err internal
page (negsuc limit) offset rows = err internal

abbrev pub tenant_live : ℕ → Link → Bool
tenant_live tenant r = r.tenant_id == tenant && is_live r

unfoldable pub list_by_tenant : Bool → ℕ → ℤ → ℤ → Db → Result (List Link)
unfolding newest_first page
list_by_tenant true tenant limit offset db = err internal
list_by_tenant false tenant limit offset db =
    page limit offset (newest_first (keep (tenant_live tenant) db.links))

-- SET code, target_url, redirect_type, expires_at, max_clicks, updated_at
unfoldable pub overwritten : ℕ → Link → Link → Link
overwritten now l r = record r {
  code = l.code;
  target_url = l.target_url;
  redirect_type = l.redirect_type;
  expires_at = l.expires_at;
  max_clicks = l.max_clicks;
  updated_at = now;
}

-- another live row has the code
abbrev pub clashes : Link → Link → Bool
clashes l r = not (is_owned l.tenant_id l.id r) && has_live_code l.code r

write_row : ℕ → Link → Db → Option Link → Result Link × Db
unfolding overwritten
write_row now l db none = (err not_found, db)
write_row now l db (some r) = if any (clashes l) db.links then (err conflict, db) else (
  ok (overwritten now l r),
  record db { links = change (is_owned l.tenant_id l.id) (overwritten now l) db.links },
)

unfoldable pub update : Bool → ℕ → Link → Db → Result Link × Db
unfolding write_row
update true now l db = (err internal, db)
update false now l db = write_row now l db (find (is_owned l.tenant_id l.id) db.links)

unfoldable pub deleted : ℕ → Link → Link
deleted now r = record r { deleted_at = some now; updated_at = now }

unfoldable pub soft_delete : Bool → ℕ → ℕ → ℕ → Db → Result (Unit {0}) × Db
unfolding deleted
soft_delete true now tenant id db = (err internal, db)
soft_delete false now tenant id db =
    if any (is_owned tenant id) db.links
    then (ok tt, record db { links = change (is_owned tenant id) (deleted now) db.links })
    else (err not_found, db)

-- `tenant_id = $1 AND (expires_at < $2 OR deleted_at < $2)`
abbrev pub is_purgeable : ℕ → ℕ → Link → Bool
is_purgeable tenant cutoff r =
    r.tenant_id == tenant && (is_before r.expires_at cutoff || is_before r.deleted_at cutoff)

abbrev pub points_into : List Link → Click → Bool
points_into links c = any (has_id c.link_id) links

-- DELETE, and ON DELETE CASCADE on clicks.link_id
unfoldable pub purge_expired : Bool → ℕ → ℕ → Db → Result ℕ × Db
purge_expired true tenant cutoff db = (err internal, db)
purge_expired false tenant cutoff db =
    let rest = keep (λ r. not (is_purgeable tenant cutoff r)) db.links in
    (
      ok (count (is_purgeable tenant cutoff) db.links),
      record { links = rest; clicks = keep (points_into rest) db.clicks },
    )

unfoldable pub exists_by_code : Bool → Bytes → Db → Result Bool
exists_by_code true code db = err internal
exists_by_code false code db = ok (any (has_live_code code) db.links)
