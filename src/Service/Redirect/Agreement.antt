-- ===== src/Service/Redirect/Agreement.antt =====
-- When the answers of internal/service/redirect.go are those of the database.
use go_link_shortener.Base.{
  ℕ, ◌≡◌, refl, ap, Bool, true, false, Option, none, some, Bytes, find, ℤ, arith, if◌then◌else◌,
}
use go_link_shortener.Domain.Errors.{not_found, gone, Result, ok, err}
use go_link_shortener.Domain.Link.{Link, is_active, is_exhausted}
use go_link_shortener.Store.Db.{Db, has_live_code}
use go_link_shortener.Store.Links.{get_by_code}
use go_link_shortener.Store.Cache
use go_link_shortener.Service.World.{World}
use go_link_shortener.Service.Redirect.{
  observe_miss, answer, from_db, CacheTtls, Faults, check_active, resolve,
}

-- What the redirect handler and the click recorder read of a link.
pub record Served : Type 0 where
  pub id : ℕ
  pub tenant_id : ℕ
  pub code : Bytes
  pub target_url : Bytes
  pub redirect_type : ℤ

abbrev pub serve : Link → Served
serve l = record {
  id = l.id;
  tenant_id = l.tenant_id;
  code = l.code;
  target_url = l.target_url;
  redirect_type = l.redirect_type;
}

abbrev pub served : Result Link → Result Served
served (ok l) = ok (serve l)
served (err e) = err e

abbrev pub live_row : Bytes → Db → Option Link
live_row code db = find (has_live_code code) db.links

-- The specification: the live row with the code, if it is active.
abbrev pub answer_of : ℕ → Option Link → Result Link
answer_of now none = err not_found
answer_of now (some l) = if is_active l now then ok l else err gone

-- `s` serves as `r` does, at any time.
pub record Mirrors (s r : Link) : Type 0 where
  pub same : serve s ≡ serve r
  pub expiry : s.expires_at ≡ r.expires_at
  pub exhausted : is_exhausted s ≡ is_exhausted r
  pub kept : s.deleted_at ≡ none
  pub live : r.deleted_at ≡ none

-- Every positive entry, whenever it is read, mirrors the live row with its code.
pub record IsCoherent (w : World) : Type 0 where
  pub mirrored :
      (t : ℕ) (code : Bytes) (s : Link)
      → Cache.get false t code w.redis ≡ ok (some s, true)
      → (r : Link) × (live_row code w.db ≡ some r) × Mirrors s r

Mirrors-active : (now : ℕ) {s r : Link} → Mirrors s r → is_active s now ≡ is_active r now
unfolding is_active
Mirrors-active now m = ground arith

Mirrors-check_active :
    (now : ℕ) {s r : Link}
    → Mirrors s r
    → served (check_active now s) ≡ served (answer_of now (some r))
unfolding check_active
Mirrors-check_active now m = ground (arith, Mirrors-active now m)

from_db-answer_of :
    (ttls : CacheTtls) (f : Faults) (now : ℕ) (code : Bytes) (w : World)
    → f.db_get ≡ false
    → (from_db ttls f now code w).0 ≡ answer_of now (live_row code w.db)
unfolding from_db get_by_code
from_db-answer_of ttls f now code w h = ground arith

abbrev pub is_negative : Result (Option Link × Bool) → Bool
is_negative (ok (none, true)) = true
is_negative _ = false

answer-agrees :
    (ttls : CacheTtls) (f : Faults) (now : ℕ) (code : Bytes) (w : World)
    (c : Result (Option Link × Bool))
    → f.db_get ≡ false
    → ((s : Link)
        → c ≡ ok (some s, true)
        → (r : Link) × (live_row code w.db ≡ some r) × Mirrors s r)
    → served (answer ttls f now code w c).0
      ≡ (if is_negative c then err not_found else served (answer_of now (live_row code w.db)))
unfolding answer
answer-agrees ttls f now code w (err e) h m =
    ap served (from_db-answer_of ttls f now code (observe_miss w) h)
answer-agrees ttls f now code w (ok (none, true)) h m = refl
answer-agrees ttls f now code w (ok (none, false)) h m =
    ap served (from_db-answer_of ttls f now code (observe_miss w) h)
answer-agrees ttls f now code w (ok (some s, false)) h m =
    ap served (from_db-answer_of ttls f now code (observe_miss w) h)
answer-agrees ttls f now code w (ok (some s, true)) h m =
    let (r, row, mirrors) = m s refl in rw row (Mirrors-check_active now mirrors)

coherent_hit :
    (fault : Bool) (now : ℕ) (code : Bytes) (w : World) (s : Link)
    → IsCoherent w
    → Cache.get fault now code w.redis ≡ ok (some s, true)
    → (r : Link) × (live_row code w.db ≡ some r) × Mirrors s r
unfolding Cache.get
coherent_hit true now code w s coherent e = absurd (ground arith)
coherent_hit false now code w s coherent e = coherent.mirrored now code s e

-- Over a coherent cache, with the database up, `Resolve` serves what the database would: the
-- active live row of the code, Gone for an inactive one, NotFound for none. A negative entry alone
-- is answered by NotFound instead. Cache failures, on the read or the write, change nothing.
pub resolve-agrees :
    (ttls : CacheTtls) (f : Faults) (now : ℕ) (code : Bytes) (w : World)
    → IsCoherent w
    → f.db_get ≡ false
    → served (resolve ttls f now code w).0 ≡ (
        if is_negative (Cache.get f.cache_get now code w.redis)
        then err not_found
        else served (answer_of now (live_row code w.db)))
unfolding resolve
resolve-agrees ttls f now code w coherent h =
    answer-agrees ttls f now code w (Cache.get f.cache_get now code w.redis) h
      (λ s e. coherent_hit f.cache_get now code w s coherent e)
