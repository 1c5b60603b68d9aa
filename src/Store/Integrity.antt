-- ===== src/Store/Integrity.antt =====
-- The integrity of the tables links and clicks, and that every repository operation keeps it: create,
-- update and soft_delete here, purge_expired in Purge.
pub mod Purge
use go_link_shortener.Base.{
  ℕ, ◌≡◌, refl, ap, ==_iff, ==_refl, Bool, true, false, ◌&&◌, not, List, [], ◌∷◌, arith, ◌==◌,
  bytes_eq, bytes_eq_iff, keep, change, any, all, count, any-change, any-change-false,
  any-keep-false,
}
use go_link_shortener.Domain.Link.{Link}
use go_link_shortener.Store.Db.{Click, Db, Minted, is_live, has_id, has_live_code, is_owned}
use go_link_shortener.Store.Links.{
  create, inserted, update, overwritten, clashes, soft_delete, deleted, purge_expired, is_purgeable,
  points_into,
}

abbrev pub clicks_of : ℕ → List Click → ℕ
clicks_of id cs = count (λ c. c.link_id == id) cs

abbrev pub IdsDistinct : List Link → Type 0
IdsDistinct [] = Unit
IdsDistinct (r ∷ rs) = (any (has_id r.id) rs ≡ false) × IdsDistinct rs

abbrev pub LiveCodesDistinct : List Link → Type 0
LiveCodesDistinct [] = Unit
LiveCodesDistinct (r ∷ rs) =
    ((is_live r && any (has_live_code r.code) rs) ≡ false) × LiveCodesDistinct rs

-- a row's counter is the number of its click rows
abbrev pub CountsAgree : List Click → List Link → Type 0
CountsAgree cs [] = Unit
CountsAgree cs (r ∷ rs) = (r.click_count ≡ clicks_of r.id cs) × CountsAgree cs rs

pub record IsSound (db : Db) : Type 0 where
  pub ids : IdsDistinct db.links
  pub codes : LiveCodesDistinct db.links
  pub counts : CountsAgree db.clicks db.links
  pub refs : all (points_into db.links) db.clicks ≡ true

pub any-has_id-eq :
    (a b : ℕ) (links : List Link) → (a == b) ≡ true → any (has_id a) links ≡ any (has_id b) links
any-has_id-eq a b links h = ap (λ i. any (has_id i) links) ((==_iff a b).0 h)

-- An id that no link has is the id of no click.
pub unused_id :
    (id : ℕ) (links : List Link) (cs : List Click)
    → all (points_into links) cs ≡ true
    → any (has_id id) links ≡ false
    → clicks_of id cs ≡ 0
unused_id id links [] h e = refl
unused_id id links (c ∷ cs) h e =
    ground (arith, any-has_id-eq c.link_id id links, unused_id id links cs)

pub refs-cons :
    (r : Link) (links : List Link) (cs : List Click)
    → all (points_into links) cs ≡ true
    → all (points_into (r ∷ links)) cs ≡ true
refs-cons r links [] h = refl
refs-cons r links (c ∷ cs) h = ground (arith, refs-cons r links cs)

pub create-IsSound :
    (fault : Bool) (m : Minted) (l : Link) (db : Db) → IsSound db → IsSound (create fault m l db).1
unfolding create inserted is_live
create-IsSound true m l db s = s
create-IsSound false m l db s =
    ground (arith, unused_id m.id db.links db.clicks, refs-cons (inserted m l) db.links db.clicks)

module _ (p : Link → Bool) (f : Link → Link) (same_id : (r : Link) → (f r).id ≡ r.id) where
  has_id-same : (id : ℕ) (r : Link) → has_id id (f r) ≡ has_id id r
  has_id-same id r = rw (same_id r)

  pub change-any_id :
      (id : ℕ) (rs : List Link) → any (has_id id) (change p f rs) ≡ any (has_id id) rs
  change-any_id id rs = any-change p f (has_id id) (has_id-same id) rs

  pub change-IdsDistinct : (rs : List Link) → IdsDistinct rs → IdsDistinct (change p f rs)
  change-IdsDistinct [] h = tt
  change-IdsDistinct (r ∷ rs) h = ground (
    arith,
    same_id r,
    change-any_id r.id rs,
    change-any_id (f r).id rs,
    any-has_id-eq (f r).id r.id rs,
    change-IdsDistinct rs,
  )

  pub change-refs :
      (rs : List Link) (cs : List Click)
      → all (points_into rs) cs ≡ true
      → all (points_into (change p f rs)) cs ≡ true
  change-refs rs [] h = refl
  change-refs rs (c ∷ cs) h = ground (arith, change-any_id c.link_id rs, change-refs rs cs)

  change-CountsAgree :
      ((r : Link) → (f r).click_count ≡ r.click_count)
      → (cs : List Click) (rs : List Link) → CountsAgree cs rs
      → CountsAgree cs (change p f rs)
  change-CountsAgree same cs [] h = tt
  change-CountsAgree same cs (r ∷ rs) h =
      ground (arith, same r, ap (λ i. clicks_of i cs) (same_id r), change-CountsAgree same cs rs)

change-LiveCodesDistinct_of_deleted :
    (p : Link → Bool) (now : ℕ) (rs : List Link)
    → LiveCodesDistinct rs
    → LiveCodesDistinct (change p (deleted now) rs)
unfolding deleted is_live
change-LiveCodesDistinct_of_deleted p now [] h = tt
change-LiveCodesDistinct_of_deleted p now (r ∷ rs) h = ground (
  arith,
  any-change-false p (deleted now) (has_live_code r.code) (λ x e. ground arith) rs,
  change-LiveCodesDistinct_of_deleted p now rs,
)

pub soft_delete-IsSound :
    (fault : Bool) (now tenant id : ℕ) (db : Db)
    → IsSound db
    → IsSound (soft_delete fault now tenant id db).1
unfolding soft_delete deleted
soft_delete-IsSound true now tenant id db s = s
soft_delete-IsSound false now tenant id db s = ground (
  arith,
  change-IdsDistinct (is_owned tenant id) (deleted now) (λ r. refl) db.links,
  change-LiveCodesDistinct_of_deleted (is_owned tenant id) now db.links,
  change-CountsAgree (is_owned tenant id) (deleted now) (λ r. refl) (λ r. refl) db.clicks db.links,
  change-refs (is_owned tenant id) (deleted now) (λ r. refl) db.links db.clicks,
)

-- Past the row that is written: no row of the rest is the owned one, and none has the new code.
new_code-unused :
    (l : Link) (now : ℕ) (rs : List Link)
    → any (has_id l.id) rs ≡ false
    → any (clashes l) rs ≡ false
    → any (has_live_code l.code) (change (is_owned l.tenant_id l.id) (overwritten now l) rs) ≡ false
unfolding overwritten
new_code-unused l now [] e c = refl
new_code-unused l now (r ∷ rs) e c = ground (arith, new_code-unused l now rs)

-- Past a row that is kept: the written row's new code is not its code.
old_code-unused :
    (l x : Link) (now : ℕ) (rs : List Link)
    → bytes_eq x.code l.code ≡ false
    → any (has_live_code x.code) rs ≡ false
    → any (has_live_code x.code) (change (is_owned l.tenant_id l.id) (overwritten now l) rs) ≡ false
unfolding overwritten
old_code-unused l x now [] n e = refl
old_code-unused l x now (r ∷ rs) n e =
    ground
      (arith, old_code-unused l x now rs, bytes_eq_iff x.code l.code, bytes_eq_iff l.code x.code)

change-LiveCodesDistinct_of_overwritten :
    (l : Link) (now : ℕ) (rs : List Link)
    → any (clashes l) rs ≡ false
    → IdsDistinct rs
    → LiveCodesDistinct rs
    → LiveCodesDistinct (change (is_owned l.tenant_id l.id) (overwritten now l) rs)
unfolding overwritten is_live
change-LiveCodesDistinct_of_overwritten l now [] c d h = tt
change-LiveCodesDistinct_of_overwritten l now (r ∷ rs) c d h = ground (
  arith,
  new_code-unused l now rs,
  old_code-unused l r now rs,
  any-has_id-eq r.id l.id rs,
  change-LiveCodesDistinct_of_overwritten l now rs,
)

pub update-IsSound :
    (fault : Bool) (now : ℕ) (l : Link) (db : Db) → IsSound db → IsSound (update fault now l db).1
unfolding update overwritten
update-IsSound true now l db s = s
update-IsSound false now l db s = ground (
  arith,
  change-IdsDistinct (is_owned l.tenant_id l.id) (overwritten now l) (λ r. refl) db.links,
  change-LiveCodesDistinct_of_overwritten l now db.links,
  change-CountsAgree (is_owned l.tenant_id l.id) (overwritten now l) (λ r. refl) (λ r. refl)
      db.clicks db.links,
  change-refs (is_owned l.tenant_id l.id) (overwritten now l) (λ r. refl) db.links db.clicks,
)
