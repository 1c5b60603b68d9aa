-- ===== src/Service/Links.antt =====
-- internal/service/link.go. `now` is the service's clock, `db_now` PostgreSQL's; `url.Parse` is a
-- parameter. An environment says which calls of the repository and the cache fail.
pub mod Changes
pub mod Creation
pub mod Effect
pub mod Allocation
use go_link_shortener.Base.{
  codes, ℕ, zero, suc, ◌+◌, Bool, true, false, ◌&&◌, ◌||◌, not, Option, none, some, List, [], ◌∷◌,
  Bytes, bytes_eq, ◌==◌, ltb, ℤ, pos, negsuc, ltb_ℤ, leb_ℤ, eq_ℤ, if◌then◌else◌,
}
use go_link_shortener.Domain.Errors.{
  Error, conflict, code_exhausted, validation, Result, ok, err, ◌>>=◌, ◌>>◌, reject_if,
}
use go_link_shortener.Domain.Link.{Link, redirect_found, redirect_permanent}
use go_link_shortener.Shortcode.{valid_alias}
use go_link_shortener.Store.Db.{Db, Minted}
use go_link_shortener.Store.Links
use go_link_shortener.Store.Cache
use go_link_shortener.Store.Cache.{Redis}
use go_link_shortener.Service.World.{World}

-- the parts of url.URL that are read
pub record Url : Type 0 where
  pub scheme : Bytes
  pub host : Bytes

pub record LinkService : Type 0 where
  pub has_events : Bool
  pub has_cache : Bool
  pub max_collision : ℕ
  pub demo_tenant_id : ℕ
  pub demo_max_ttl : ℤ
  pub parse_url : Bytes → Option Url

-- NewLinkService clamps the budget to 1 and leaves the demo policy off.
unfoldable pub new_link_service : (Bytes → Option Url) → Bool → Bool → ℤ → LinkService
new_link_service parse events cache max_collision = record {
  has_events = events;
  has_cache = cache;
  max_collision = elim max_collision [ pos n ↦ if n == 0 then 1 else n | negsuc n ↦ 1 ];
  demo_tenant_id = 0;
  demo_max_ttl = pos 0;
  parse_url = parse;
}

unfoldable pub set_demo_policy : ℕ → ℤ → LinkService → LinkService
set_demo_policy tenant max_ttl s = record s { demo_tenant_id = tenant; demo_max_ttl = max_ttl }

-- `requested != nil && requested.Before(capAt)`
abbrev pub within_cap : Option ℕ → ℕ → Bool
within_cap none cap_at = false
within_cap (some t) cap_at = ltb t cap_at

unfoldable pub clamp_demo_expiry : LinkService → ℕ → ℕ → Option ℕ → Option ℕ
clamp_demo_expiry s now tenant requested = elim s.demo_max_ttl [
  | negsuc n ↦ requested
  | pos ttl ↦
      if ttl == 0 || not (tenant == s.demo_tenant_id)
      then requested
      else if within_cap requested (now + ttl)
      then requested
      else some (now + ttl)
]

unfoldable pub validate_url : LinkService → Bytes → Result (Unit {0})
validate_url s raw =
    if bytes_eq raw [] then err (validation "url is required") else elim (s.parse_url raw) [
      | none ↦ err (validation "url is not parseable")
      | some u ↦
          if not (bytes_eq u.scheme (codes "http")) && not (bytes_eq u.scheme (codes "https"))
          then err (validation "url scheme must be http or https")
          else if bytes_eq u.host []
          then err (validation "url must include a host")
          else ok tt
    ]

unfoldable pub normalize_redirect_type : ℤ → Result ℤ
normalize_redirect_type rt =
    if eq_ℤ rt (pos 0) || eq_ℤ rt redirect_found
    then ok redirect_found
    else if eq_ℤ rt redirect_permanent
    then ok redirect_permanent
    else err (validation "redirect_type must be 301 or 302")

unfoldable pub validate_expiry : ℕ → Option ℕ → Result (Unit {0})
validate_expiry now none = ok tt
validate_expiry now (some t) =
    reject_if (not (ltb now t)) (validation "expires_at must be in the future")

unfoldable pub validate_max_clicks : Option ℤ → Result (Unit {0})
validate_max_clicks none = ok tt
validate_max_clicks (some m) =
    reject_if (ltb_ℤ m (pos 1)) (validation "max_clicks must be a positive integer")

pub record CreateLinkInput : Type 0 where
  pub target_url : Bytes
  pub custom_alias : Bytes
  pub redirect_type : ℤ
  pub expires_at : Option ℕ
  pub max_clicks : Option ℤ

-- What one `Create` meets: attempt `k` of the loop draws `candidate k` and inserts with `minted k`.
pub record CreateEnv : Type 0 where
  pub now : ℕ
  pub candidate : ℕ → Result Bytes
  pub minted : ℕ → Minted
  pub insert_fails : ℕ → Bool

-- The link before it has a code.
draft : LinkService → ℕ → ℕ → CreateLinkInput → Result Link
draft s now tenant input = do
  validate_url s input.target_url
  redirect_type ← normalize_redirect_type input.redirect_type
  validate_expiry now input.expires_at
  validate_max_clicks input.max_clicks
  ok (record {
    id = 0;
    tenant_id = tenant;
    code = [];
    target_url = input.target_url;
    redirect_type = redirect_type;
    expires_at = clamp_demo_expiry s now tenant input.expires_at;
    max_clicks = input.max_clicks;
    click_count = 0;
    created_at = 0;
    updated_at = 0;
    deleted_at = none;
  })

on_candidate : Result Bytes → Db → (Bytes → Result Link × Db) → Result Link × Db
on_candidate (err e) db insert = (err e, db)
on_candidate (ok code) db insert = insert code

-- a collision goes on to `again`
on_insert : Result Link × Db → (Db → Result Link × Db) → Result Link × Db
on_insert (ok l, db) again = (ok l, db)
on_insert (err conflict, db) again = again db
on_insert (err e, db) again = (err e, db)

-- The loop: `left` attempts remain, and the current one is number `k`.
unfoldable pub allocate_generated_code : ℕ → ℕ → CreateEnv → Link → Db → Result Link × Db
unfolding on_candidate on_insert
allocate_generated_code zero k env link db = (err code_exhausted, db)
allocate_generated_code (suc left) k env link db = on_candidate (env.candidate k) db λ code.
    on_insert (Links.create (env.insert_fails k) (env.minted k) (record link { code = code }) db)
      λ db'. allocate_generated_code left (k + 1) env (record link { code = code }) db'

persist : LinkService → CreateEnv → Bytes → Link → Db → Result Link × Db
unfolding allocate_generated_code
persist s env alias link db =
    if bytes_eq alias []
    then allocate_generated_code s.max_collision 0 env link db
    else if not (valid_alias alias)
    then (err (validation "custom alias must be 3-64 URL-safe characters and not reserved"), db)
    else Links.create (env.insert_fails 0) (env.minted 0) (record link { code = alias }) db

emit_created : LinkService → Link → World → World
emit_created s l w = if s.has_events then record w { created_events = l ∷ w.created_events } else w

created : LinkService → World → Result Link × Db → Result Link × World
unfolding emit_created
created s w (ok l, db) = (ok l, emit_created s l (record w { db = db }))
created s w (err e, db) = (err e, record w { db = db })

create_from : LinkService → CreateEnv → Bytes → World → Result Link → Result Link × World
unfolding created persist
create_from s env alias w (err e) = (err e, w)
create_from s env alias w (ok link) = created s w (persist s env alias link w.db)

unfoldable pub create : LinkService → CreateEnv → ℕ → CreateLinkInput → World → Result Link × World
unfolding create_from draft
create s env tenant input w = create_from s env input.custom_alias w (draft s env.now tenant input)

unfoldable pub get_link : Bool → ℕ → ℕ → World → Result Link
get_link fault tenant id w = Links.get_by_id_for_tenant fault tenant id w.db

unfoldable pub list : Bool → ℕ → ℤ → ℤ → World → Result (List Link)
list fault tenant limit offset w =
    Links.list_by_tenant fault tenant
      (if leb_ℤ limit (pos 0) || ltb_ℤ (pos 100) limit then pos 50 else limit)
      (if ltb_ℤ offset (pos 0) then pos 0 else offset) w.db
