-- ===== src/Service/Links/Changes.antt =====
-- `Update` and `Delete` of internal/service/link.go.
pub mod Patching
pub mod Rows
pub mod Freshness
pub mod Writes
pub mod Fields
use go_link_shortener.Base.{
  ℕ, Bool, true, false, not, Option, none, some, Bytes, bytes_eq, ℤ, if◌then◌else◌,
}
use go_link_shortener.Domain.Errors.{Result, ok, err, ◌>>=◌, ◌>>◌}
use go_link_shortener.Domain.Link.{Link}
use go_link_shortener.Store.Db.{Db}
use go_link_shortener.Store.Links
use go_link_shortener.Store.Cache
use go_link_shortener.Store.Cache.{Redis}
use go_link_shortener.Service.World.{World}
use go_link_shortener.Service.Links.{
  LinkService, clamp_demo_expiry, validate_url, normalize_redirect_type, validate_expiry,
  validate_max_clicks,
}

pub record UpdateLinkInput : Type 0 where
  pub target_url : Option Bytes
  pub redirect_type : Option ℤ
  pub expires_at : Option ℕ
  pub clear_expires_at : Bool
  pub max_clicks : Option ℤ
  pub clear_max_clicks : Bool

-- What one `Update` or `Delete` meets.
pub record ChangeEnv : Type 0 where
  pub now : ℕ
  pub db_now : ℕ
  pub get_fails : Bool
  pub write_fails : Bool
  pub invalidate_fails : Bool

patch_url : LinkService → Option Bytes → Link → Result Link
patch_url s none l = ok l
patch_url s (some url) l = do validate_url s url; ok (record l { target_url = url })

patch_redirect_type : Option ℤ → Link → Result Link
patch_redirect_type none l = ok l
patch_redirect_type (some rt) l = do
  t ← normalize_redirect_type rt
  ok (record l { redirect_type = t })

patch_expires_at : ℕ → Bool → Option ℕ → Link → Result Link
patch_expires_at now true t l = ok (record l { expires_at = none })
patch_expires_at now false none l = ok l
patch_expires_at now false (some t) l = do
  validate_expiry now (some t)
  ok (record l { expires_at = some t })

patch_max_clicks : Bool → Option ℤ → Link → Result Link
patch_max_clicks true m l = ok (record l { max_clicks = none })
patch_max_clicks false none l = ok l
patch_max_clicks false (some m) l = do
  validate_max_clicks (some m)
  ok (record l { max_clicks = some m })

-- The patches, then the demo cap.
unfoldable pub patched : LinkService → ℕ → ℕ → UpdateLinkInput → Link → Result Link
unfolding patch_url patch_redirect_type patch_expires_at patch_max_clicks clamp_demo_expiry
    validate_url normalize_redirect_type validate_expiry validate_max_clicks
patched s now tenant input link = do
  a ← patch_url s input.target_url link
  b ← patch_redirect_type input.redirect_type a
  c ← patch_expires_at now input.clear_expires_at input.expires_at b
  d ← patch_max_clicks input.clear_max_clicks input.max_clicks c
  ok (record d { expires_at = clamp_demo_expiry s now tenant d.expires_at })

-- best effort: a failure is logged
unfoldable pub evict : LinkService → Bool → Bytes → Redis → Redis
evict s fault code redis = if s.has_cache then (Cache.invalidate fault code redis).1 else redis

evict_both : LinkService → Bool → Bytes → Bytes → Redis → Redis
unfolding evict
evict_both s fault old new redis =
    if not (bytes_eq new old)
    then evict s fault new (evict s fault old redis)
    else evict s fault old redis

updated : LinkService → ChangeEnv → Bytes → World → Result Link × Db → Result Link × World
unfolding evict_both
updated s env old_code w (err e, db) = (err e, record w { db = db })
updated s env old_code w (ok l, db) =
    (ok l, record w { db = db; redis = evict_both s env.invalidate_fails old_code l.code w.redis })

write_patched : LinkService → ChangeEnv → Bytes → World → Result Link → Result Link × World
unfolding updated
write_patched s env old_code w (err e) = (err e, w)
write_patched s env old_code w (ok l) =
    updated s env old_code w (Links.update env.write_fails env.db_now l w.db)

update_found :
    LinkService → ChangeEnv → ℕ → UpdateLinkInput → World → Result Link → Result Link × World
unfolding write_patched patched
update_found s env tenant input w (err e) = (err e, w)
update_found s env tenant input w (ok link) =
    write_patched s env link.code w (patched s env.now tenant input link)

unfoldable pub update :
    LinkService → ChangeEnv → ℕ → ℕ → UpdateLinkInput → World → Result Link × World
unfolding update_found
update s env tenant id input w =
    update_found s env tenant input w (Links.get_by_id_for_tenant env.get_fails tenant id w.db)

deleted :
    LinkService → ChangeEnv → Bytes → World → Result (Unit {0}) × Db → Result (Unit {0}) × World
unfolding evict
deleted s env code w (err e, db) = (err e, record w { db = db })
deleted s env code w (ok u, db) =
    (ok tt, record w { db = db; redis = evict s env.invalidate_fails code w.redis })

delete_found : LinkService → ChangeEnv → ℕ → ℕ → World → Result Link → Result (Unit {0}) × World
unfolding deleted
delete_found s env tenant id w (err e) = (err e, w)
delete_found s env tenant id w (ok link) =
    deleted s env link.code w (Links.soft_delete env.write_fails env.db_now tenant id w.db)

unfoldable pub delete : LinkService → ChangeEnv → ℕ → ℕ → World → Result (Unit {0}) × World
unfolding delete_found
delete s env tenant id w =
    delete_found s env tenant id w (Links.get_by_id_for_tenant env.get_fails tenant id w.db)
