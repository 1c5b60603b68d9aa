-- ===== src/Service/Links/Effect.antt =====
-- What `Create` of internal/service/link.go writes: one row on success, nothing on failure.
use go_link_shortener.Base.{
  ℕ, zero, suc, ◌+◌, ◌≡◌, refl, ap, Bool, true, false, none, [], ◌∷◌, Bytes, bytes_eq, any, arith,
  ◌||◌, inl, inr, Bool-cases, if◌then◌else◌,
}
use go_link_shortener.Domain.Errors.{conflict, Result, ok, err, ◌>>◌}
use go_link_shortener.Domain.Link.{Link}
use go_link_shortener.Shortcode.{valid_alias}
use go_link_shortener.Store.Db.{Db, Minted, has_id, has_live_code}
use go_link_shortener.Store.Links
use go_link_shortener.Service.World.{World}
use go_link_shortener.Service.Links.{
  validate_max_clicks, validate_expiry, validate_url, LinkService, CreateEnv, CreateLinkInput,
  create, create_from, draft, persist, created, allocate_generated_code, on_candidate, on_insert,
  clamp_demo_expiry, normalize_redirect_type,
}

-- `l` is the draft `l0` under a code that no live row had, in a row of its own.
pub record IsInserted (l0 l : Link) (a b : Db) : Type 0 where
  pub added : b.links ≡ l ∷ a.links
  pub clicks : b.clicks ≡ a.clicks
  pub new_id : any (has_id l.id) a.links ≡ false
  pub new_code : any (has_live_code l.code) a.links ≡ false
  pub tenant_id : l.tenant_id ≡ l0.tenant_id
  pub target_url : l.target_url ≡ l0.target_url
  pub redirect_type : l.redirect_type ≡ l0.redirect_type
  pub expires_at : l.expires_at ≡ l0.expires_at
  pub max_clicks : l.max_clicks ≡ l0.max_clicks
  pub click_count : l.click_count ≡ 0
  pub deleted_at : l.deleted_at ≡ none

abbrev pub InsertsOne : Link → Db → Result Link × Db → Type 0
InsertsOne l0 a (ok l, b) = IsInserted l0 l a b
InsertsOne l0 a (err e, b) = b ≡ a

insert-InsertsOne :
    (fault : Bool) (m : Minted) (l0 : Link) (code : Bytes) (db : Db)
    → InsertsOne l0 db (Links.create fault m (record l0 { code = code }) db)
unfolding Links.create Links.inserted
insert-InsertsOne true m l0 code db = refl
insert-InsertsOne false m l0 code db =
    elim (Bool-cases (any (has_id m.id) db.links || any (has_live_code code) db.links)) [
      | inl taken ↦ rw taken refl
      | inr free ↦ rw free (record {
        added = refl;
        clicks = refl;
        new_id = ground arith;
        new_code = ground arith;
        tenant_id = refl;
        target_url = refl;
        redirect_type = refl;
        expires_at = refl;
        max_clicks = refl;
        click_count = refl;
        deleted_at = refl;
      })
    ]

on_insert-InsertsOne :
    (l0 : Link) (a : Db) (p : Result Link × Db) (again : Db → Result Link × Db)
    → InsertsOne l0 a p
    → InsertsOne l0 a (again a)
    → InsertsOne l0 a (on_insert p again)
unfolding on_insert
on_insert-InsertsOne l0 a (ok l, b) again h k = h
on_insert-InsertsOne l0 a (err conflict, b) again h k = rw h k
on_insert-InsertsOne l0 a (err e, b) again h k = h

on_candidate-InsertsOne :
    (l0 : Link) (a : Db) (r : Result Bytes) (insert : Bytes → Result Link × Db)
    → ((code : Bytes) → InsertsOne l0 a (insert code))
    → InsertsOne l0 a (on_candidate r a insert)
unfolding on_candidate
on_candidate-InsertsOne l0 a (ok code) insert h = h code
on_candidate-InsertsOne l0 a (err e) insert h = refl

allocate-InsertsOne :
    (left k : ℕ) (env : CreateEnv) (l0 : Link) (code : Bytes) (db : Db)
    → InsertsOne l0 db (allocate_generated_code left k env (record l0 { code = code }) db)
unfolding allocate_generated_code
allocate-InsertsOne zero k env l0 code db = refl
allocate-InsertsOne (suc left) k env l0 code db =
    on_candidate-InsertsOne l0 db (env.candidate k) _ λ c.
      on_insert-InsertsOne l0 db _ _ (insert-InsertsOne (env.insert_fails k) (env.minted k) l0 c db)
        (allocate-InsertsOne left (k + 1) env l0 c db)

persist-InsertsOne :
    (s : LinkService) (env : CreateEnv) (alias : Bytes) (l0 : Link) (db : Db)
    → InsertsOne l0 db (persist s env alias l0 db)
unfolding persist
persist-InsertsOne s env alias l0 db = elim (Bool-cases (bytes_eq alias [])) [
  | inl generated ↦ rw generated (allocate-InsertsOne s.max_collision 0 env l0 l0.code db)
  | inr given ↦ elim (Bool-cases (valid_alias alias)) [
    | inl good ↦
        rw (given, good) (insert-InsertsOne (env.insert_fails 0) (env.minted 0) l0 alias db)
    | inr bad ↦ rw (given, bad) refl
  ]
]

-- The row of a request: what the validated input fixes.
pub record IsRequested (s : LinkService) (now tenant : ℕ) (input : CreateLinkInput) (l : Link)
    : Type 0 where
  pub tenant_id : l.tenant_id ≡ tenant
  pub target_url : l.target_url ≡ input.target_url
  pub redirect_type : normalize_redirect_type input.redirect_type ≡ ok l.redirect_type
  pub expires_at : l.expires_at ≡ clamp_demo_expiry s now tenant input.expires_at
  pub max_clicks : l.max_clicks ≡ input.max_clicks
  pub url_valid : validate_url s input.target_url ≡ ok tt
  pub expiry_valid : validate_expiry now input.expires_at ≡ ok tt
  pub max_clicks_valid : validate_max_clicks input.max_clicks ≡ ok tt

bind_unit-eq-ok {ℓ} :
    {A : Type ℓ} (m : Result (Unit {0})) (k : Result A) {a : A} → (m >> k) ≡ ok a → k ≡ ok a
bind_unit-eq-ok (ok u) k h = h
bind_unit-eq-ok (err e) k h = absurd (ground arith)

-- What `draft` makes of accepted input.
draft-IsRequested :
    (s : LinkService) (now tenant : ℕ) (input : CreateLinkInput) (l : Link)
    → draft s now tenant input ≡ ok l
    → IsRequested s now tenant input l
unfolding draft
draft-IsRequested s now tenant input l e = ground arith

pub record IsCreated (s : LinkService) (l : Link) (w w' : World) : Type 0 where
  pub unused_id : any (has_id l.id) w.db.links ≡ false
  pub unused_code : any (has_live_code l.code) w.db.links ≡ false
  pub live : l.deleted_at ≡ none
  pub unclicked : l.click_count ≡ 0
  pub links : w'.db.links ≡ l ∷ w.db.links
  pub clicks : w'.db.clicks ≡ w.db.clicks
  pub redis : w'.redis ≡ w.redis
  pub events : w'.created_events ≡ (if s.has_events then l ∷ w.created_events else w.created_events)

abbrev pub CreateEffect :
    LinkService → ℕ → ℕ → CreateLinkInput → World → Result Link × World → Type 0
CreateEffect s now tenant input w (ok l, w') = IsRequested s now tenant input l × IsCreated s l w w'
CreateEffect s now tenant input w (err e, w') = w' ≡ w

IsRequested-again :
    (s : LinkService) (now tenant : ℕ) (input : CreateLinkInput) (l0 l : Link) (a b : Db)
    → IsRequested s now tenant input l0
    → IsInserted l0 l a b
    → IsRequested s now tenant input l
IsRequested-again s now tenant input l0 l a b q i = ground arith

created-CreateEffect :
    (s : LinkService) (now tenant : ℕ) (input : CreateLinkInput) (l0 : Link) (w : World)
    (p : Result Link × Db)
    → IsRequested s now tenant input l0
    → InsertsOne l0 w.db p
    → CreateEffect s now tenant input w (created s w p)
unfolding created
created-CreateEffect s now tenant input l0 w (err e, db) q i = ap (λ d. record w { db = d }) i
created-CreateEffect s now tenant input l0 w (ok l, db) q i = (
  IsRequested-again s now tenant input l0 l w.db db q i,
  elim (Bool-cases s.has_events) [ inl sink ↦ ground arith | inr without ↦ ground arith ],
)

create_from-CreateEffect :
    (s : LinkService) (env : CreateEnv) (tenant : ℕ) (input : CreateLinkInput) (w : World)
    (d : Result Link)
    → draft s env.now tenant input ≡ d
    → CreateEffect s env.now tenant input w (create_from s env input.custom_alias w d)
unfolding create_from
create_from-CreateEffect s env tenant input w (err e) q = refl
create_from-CreateEffect s env tenant input w (ok l0) q =
    created-CreateEffect s env.now tenant input l0 w _
      (draft-IsRequested s env.now tenant input l0 q)
      (persist-InsertsOne s env input.custom_alias l0 w.db)

-- `Create` is all or nothing. A created link is a new live row with no clicks, under an id and a
-- code that no live row had; its fields are those of the request, which was valid, with the demo
-- cap applied to its expiry; one event is emitted if there is a sink. On any error the database,
-- the cache and the events are as before.
pub create-CreateEffect :
    (s : LinkService) (env : CreateEnv) (tenant : ℕ) (input : CreateLinkInput) (w : World)
    → CreateEffect s env.now tenant input w (create s env tenant input w)
unfolding create
create-CreateEffect s env tenant input w =
    create_from-CreateEffect s env tenant input w (draft s env.now tenant input) refl
