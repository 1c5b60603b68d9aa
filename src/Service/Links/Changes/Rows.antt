-- ===== src/Service/Links/Changes/Rows.antt =====
-- What the statements of `Update` and `Delete` leave of the live rows of other codes.
use go_link_shortener.Base.{
  ℕ, ◌≡◌, refl, Bool, true, false, ◌&&◌, not, some, List, [], ◌∷◌, Bytes, bytes_eq, bytes_eq_iff,
  arith, find, any, change, find-change_disjoint, any-mono_false,
}
use go_link_shortener.Domain.Link.{Link}
use go_link_shortener.Store.Db.{Db, is_live, has_id, has_live_code, is_owned}
use go_link_shortener.Store.Links
use go_link_shortener.Store.Integrity.{IdsDistinct, any-has_id-eq}
use go_link_shortener.Service.Redirect.Agreement.{live_row}

abbrev other_code : ℕ → ℕ → Bytes → Link → Bool
other_code tenant id code x = is_owned tenant id x && not (bytes_eq x.code code)

none_owned :
    (tenant id : ℕ) (code : Bytes) (rs : List Link)
    → any (has_id id) rs ≡ false
    → any (other_code tenant id code) rs ≡ false
none_owned tenant id code rs e =
    any-mono_false (has_id id) (other_code tenant id code) (λ x h. ground arith) rs e

-- One row at most is the owned one.
owned-code :
    (tenant id : ℕ) (r : Link) (rs : List Link)
    → IdsDistinct rs
    → find (is_owned tenant id) rs ≡ some r
    → any (other_code tenant id r.code) rs ≡ false
owned-code tenant id r [] d e = refl
owned-code tenant id r (x ∷ rs) d e = ground (
  arith,
  none_owned tenant id r.code rs,
  any-has_id-eq x.id id rs,
  bytes_eq_iff x.code r.code,
  owned-code tenant id r rs,
)

-- A write to the owned row is not seen under another code, if the row does not take that code.
live_row-change :
    (tenant id : ℕ) (r : Link) (f : Link → Link) (c : Bytes) (db : Db)
    → IdsDistinct db.links
    → find (is_owned tenant id) db.links ≡ some r
    → bytes_eq c r.code ≡ false
    → ((x : Link) → has_live_code c (f x) ≡ false)
    → find (has_live_code c) (change (is_owned tenant id) f db.links) ≡ live_row c db
live_row-change tenant id r f c db d e n k =
    find-change_disjoint (is_owned tenant id) f (has_live_code c) db.links (
      any-mono_false (other_code tenant id r.code) _
        (λ x h.
          ground
            (arith, k x, bytes_eq_iff x.code c, bytes_eq_iff x.code r.code, bytes_eq_iff c r.code))
        db.links (owned-code tenant id r db.links d e))

pub live_row-update :
    (fault : Bool) (now : ℕ) (l r : Link) (c : Bytes) (db : Db)
    → IdsDistinct db.links
    → find (is_owned l.tenant_id l.id) db.links ≡ some r
    → l.code ≡ r.code
    → bytes_eq c r.code ≡ false
    → live_row c (Links.update fault now l db).1 ≡ live_row c db
unfolding Links.update Links.overwritten
live_row-update true now l r c db d e k n = refl
live_row-update false now l r c db d e k n = ground (
  arith,
  live_row-change l.tenant_id l.id r (Links.overwritten now l) c db d e n
      (λ x. ground (arith, bytes_eq_iff l.code c, bytes_eq_iff c r.code)),
)

pub live_row-soft_delete :
    (fault : Bool) (now tenant id : ℕ) (r : Link) (c : Bytes) (db : Db)
    → IdsDistinct db.links
    → find (is_owned tenant id) db.links ≡ some r
    → bytes_eq c r.code ≡ false
    → live_row c (Links.soft_delete fault now tenant id db).1 ≡ live_row c db
unfolding Links.soft_delete Links.deleted is_live
live_row-soft_delete true now tenant id r c db d e n = refl
live_row-soft_delete false now tenant id r c db d e n =
    ground (arith, live_row-change tenant id r (Links.deleted now) c db d e n (λ x. ground arith))
