-- ===== src/Store/Integrity/Purge.antt =====
-- internal/repository/link.go, PurgeExpired: the cascade keeps the tables sound.
use go_link_shortener.Base.{
  ℕ, ◌≡◌, refl, ==_refl, Bool, true, false, not, List, [], ◌∷◌, arith, keep, any, all,
  any-keep-false,
}
use go_link_shortener.Domain.Link.{Link}
use go_link_shortener.Store.Db.{Click, Db, has_id, has_live_code}
use go_link_shortener.Store.Links.{purge_expired, is_purgeable, points_into}
use go_link_shortener.Store.Integrity.{
  clicks_of, IdsDistinct, LiveCodesDistinct, CountsAgree, IsSound, any-has_id-eq,
}

module _ (p : Link → Bool) where
  keep-IdsDistinct : (rs : List Link) → IdsDistinct rs → IdsDistinct (keep p rs)
  keep-IdsDistinct [] h = tt
  keep-IdsDistinct (r ∷ rs) h =
      ground (arith, any-keep-false p (has_id r.id) rs, keep-IdsDistinct rs)

  keep-LiveCodesDistinct : (rs : List Link) → LiveCodesDistinct rs → LiveCodesDistinct (keep p rs)
  keep-LiveCodesDistinct [] h = tt
  keep-LiveCodesDistinct (r ∷ rs) h =
      ground (arith, any-keep-false p (has_live_code r.code) rs, keep-LiveCodesDistinct rs)

any-keep-cons {ℓ} :
    {A : Type ℓ} (p q : A → Bool) (x : A) (xs : List A)
    → any q (keep p xs) ≡ true
    → any q (keep p (x ∷ xs)) ≡ true
any-keep-cons p q x xs e = ground arith

-- A click of a link that stays is not cascaded away.
clicks_of-keep :
    (id : ℕ) (rest : List Link) (cs : List Click)
    → any (has_id id) rest ≡ true
    → clicks_of id (keep (points_into rest) cs) ≡ clicks_of id cs
clicks_of-keep id rest [] e = refl
clicks_of-keep id rest (c ∷ cs) e =
    ground (arith, any-has_id-eq c.link_id id rest, clicks_of-keep id rest cs)

keep-CountsAgree :
    (p : Link → Bool) (kept : List Link) (cs : List Click) (rs : List Link)
    → ((id : ℕ) → any (has_id id) (keep p rs) ≡ true → any (has_id id) kept ≡ true)
    → CountsAgree cs rs
    → CountsAgree (keep (points_into kept) cs) (keep p rs)
keep-CountsAgree p kept cs [] sub h = tt
keep-CountsAgree p kept cs (r ∷ rs) sub h = ground (
  arith,
  sub r.id,
  ==_refl r.id,
  clicks_of-keep r.id kept cs,
  keep-CountsAgree p kept cs rs (λ id e. sub id (any-keep-cons p (has_id id) r rs e)),
)

all-keep_self {ℓ} : {A : Type ℓ} (p : A → Bool) (xs : List A) → all p (keep p xs) ≡ true
all-keep_self p [] = refl
all-keep_self p (x ∷ xs) = ground (arith, all-keep_self p xs)

pub purge_expired-IsSound :
    (fault : Bool) (tenant cutoff : ℕ) (db : Db)
    → IsSound db
    → IsSound (purge_expired fault tenant cutoff db).1
unfolding purge_expired
purge_expired-IsSound true tenant cutoff db s = s
purge_expired-IsSound false tenant cutoff db s = record {
  ids = keep-IdsDistinct stays db.links s.ids;
  codes = keep-LiveCodesDistinct stays db.links s.codes;
  counts = keep-CountsAgree stays (keep stays db.links) db.clicks db.links (λ id e. e) s.counts;
  refs = all-keep_self (points_into (keep stays db.links)) db.clicks;
}
  where
    stays : Link → Bool
    stays r = not (is_purgeable tenant cutoff r)
