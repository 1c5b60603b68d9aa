-- ===== src/Service/Links/Changes/Fields.antt =====
-- The fields of a patched link.
use go_link_shortener.Base.{ℕ, ◌≡◌, refl, Bool, true, false, Option, none, some, Bytes, ℤ, arith}
use go_link_shortener.Domain.Errors.{Result, ok, err, ◌>>=◌}
use go_link_shortener.Domain.Link.{Link}
use go_link_shortener.Service.Links.{
  LinkService, clamp_demo_expiry, validate_url, normalize_redirect_type, validate_expiry,
  validate_max_clicks,
}
use go_link_shortener.Service.Links.Changes.{
  UpdateLinkInput, patch_url, patch_redirect_type, patch_expires_at, patch_max_clicks, patched,
}

-- the new value of a field that a request can leave alone
abbrev pub chosen {ℓ} : {A : Type ℓ} → Option A → A → A
chosen none a = a
chosen (some b) a = b

-- ... and of a field that it can also clear
abbrev pub cleared_or {ℓ} : {A : Type ℓ} → Bool → Option A → Option A → Option A
cleared_or true new a = none
cleared_or false none a = a
cleared_or false (some b) a = some b

abbrev pub Normalized : Option ℤ → ℤ → ℤ → Type 0
Normalized none old new = new ≡ old
Normalized (some rt) old new = normalize_redirect_type rt ≡ ok new

-- `a` is `l` with the fields of `input`.
pub record IsPatched (s : LinkService) (now tenant : ℕ) (input : UpdateLinkInput) (l a : Link)
    : Type 0 where
  pub url : a.target_url ≡ chosen input.target_url l.target_url
  pub redirect : Normalized input.redirect_type l.redirect_type a.redirect_type
  pub expiry :
      a.expires_at
      ≡ clamp_demo_expiry s now tenant
          (cleared_or input.clear_expires_at input.expires_at l.expires_at)
  pub clicks : a.max_clicks ≡ cleared_or input.clear_max_clicks input.max_clicks l.max_clicks

bind_ok :
    (m : Result Link) (f : Link → Result Link) (b : Link)
    → (m >>= f) ≡ ok b
    → (a : Link) × (m ≡ ok a) × (f a ≡ ok b)
bind_ok (ok a) f b e = (a, refl, e)
bind_ok (err x) f b e = absurd (ground arith)

patch_url-ok :
    (s : LinkService) (u : Option Bytes) (l a : Link)
    → patch_url s u l ≡ ok a
    → record l { target_url = chosen u l.target_url } ≡ a
unfolding patch_url
patch_url-ok s none l a e = ground arith
patch_url-ok s (some u) l a e = go (validate_url s u) e
  where
    go :
        (r : Result (Unit {0}))
        → (r >>= λ _. ok (record l { target_url = u })) ≡ ok a
        → record l { target_url = u } ≡ a
    go (ok v) h = ground arith
    go (err x) h = absurd (ground arith)

patch_redirect_type-ok :
    (rt : Option ℤ) (l a : Link)
    → patch_redirect_type rt l ≡ ok a
    → Normalized rt l.redirect_type a.redirect_type
      × (record l { redirect_type = a.redirect_type } ≡ a)
unfolding patch_redirect_type
patch_redirect_type-ok none l a e = ground arith
patch_redirect_type-ok (some rt) l a e = go (normalize_redirect_type rt) refl e
  where
    go :
        (r : Result ℤ)
        → normalize_redirect_type rt ≡ r
        → (r >>= λ t. ok (record l { redirect_type = t })) ≡ ok a
        → (normalize_redirect_type rt ≡ ok a.redirect_type)
          × (record l { redirect_type = a.redirect_type } ≡ a)
    go (ok t) q h = ground arith
    go (err x) q h = absurd (ground arith)

patch_expires_at-ok :
    (now : ℕ) (c : Bool) (t : Option ℕ) (l a : Link)
    → patch_expires_at now c t l ≡ ok a
    → record l { expires_at = cleared_or c t l.expires_at } ≡ a
unfolding patch_expires_at
patch_expires_at-ok now true t l a e = ground arith
patch_expires_at-ok now false none l a e = ground arith
patch_expires_at-ok now false (some t) l a e = go (validate_expiry now (some t)) e
  where
    go :
        (r : Result (Unit {0}))
        → (r >>= λ _. ok (record l { expires_at = some t })) ≡ ok a
        → record l { expires_at = some t } ≡ a
    go (ok v) h = ground arith
    go (err x) h = absurd (ground arith)

patch_max_clicks-ok :
    (c : Bool) (m : Option ℤ) (l a : Link)
    → patch_max_clicks c m l ≡ ok a
    → record l { max_clicks = cleared_or c m l.max_clicks } ≡ a
unfolding patch_max_clicks
patch_max_clicks-ok true m l a e = ground arith
patch_max_clicks-ok false none l a e = ground arith
patch_max_clicks-ok false (some m) l a e = go (validate_max_clicks (some m)) e
  where
    go :
        (r : Result (Unit {0}))
        → (r >>= λ _. ok (record l { max_clicks = some m })) ≡ ok a
        → record l { max_clicks = some m } ≡ a
    go (ok v) h = ground arith
    go (err x) h = absurd (ground arith)

pub patched-IsPatched :
    (s : LinkService) (now tenant : ℕ) (input : UpdateLinkInput) (l a : Link)
    → patched s now tenant input l ≡ ok a
    → IsPatched s now tenant input l a
unfolding patched
patched-IsPatched s now tenant input l z e =
    let (a, ea, fa) = bind_ok (patch_url s input.target_url l) _ z e in
    let (b, eb, fb) = bind_ok (patch_redirect_type input.redirect_type a) _ z fa in
    let (c, ec, fc) =
      bind_ok (patch_expires_at now input.clear_expires_at input.expires_at b) _ z fb in
    let (d, ed, fd) = bind_ok (patch_max_clicks input.clear_max_clicks input.max_clicks c) _ z fc in
    let ha = patch_url-ok s input.target_url l a ea in
    let hb = patch_redirect_type-ok input.redirect_type a b eb in
    let hc = patch_expires_at-ok now input.clear_expires_at input.expires_at b c ec in
    let hd = patch_max_clicks-ok input.clear_max_clicks input.max_clicks c d ed in
    record {
      url = ground (arith, ha, hb.1, hc, hd, fd);
      redirect = ground (arith, ha, hb.0, hb.1, hc, hd, fd);
      expiry = ground (arith, ha, hb.1, hc, hd, fd);
      clicks = ground (arith, ha, hb.1, hc, hd, fd);
    }
