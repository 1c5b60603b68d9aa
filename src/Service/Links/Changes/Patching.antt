-- ===== src/Service/Links/Changes/Patching.antt =====
-- What the patches of `Update` in internal/service/link.go leave alone, and what they establish.
use go_link_shortener.Base.{
  subst, ℕ, ◌≡◌, refl, Bool, true, false, Option, none, some, Bytes, arith, ℤ,
}
use go_link_shortener.Domain.Errors.{Result, ok, err, ◌>>=◌}
use go_link_shortener.Domain.Link.{Link}
use go_link_shortener.Service.Links.{
  LinkService, normalize_redirect_type, validate_url, validate_expiry, validate_max_clicks,
}
use go_link_shortener.Service.Links.Changes.{
  UpdateLinkInput, patch_url, patch_redirect_type, patch_expires_at, patch_max_clicks, patched,
}

-- `a` is `b` but for the fields that can be patched.
pub record SameKey (a b : Link) : Type 0 where
  pub id : a.id ≡ b.id
  pub tenant_id : a.tenant_id ≡ b.tenant_id
  pub code : a.code ≡ b.code
  pub click_count : a.click_count ≡ b.click_count
  pub deleted_at : a.deleted_at ≡ b.deleted_at

abbrev Keeps : Link → Result Link → Type 0
Keeps l (ok l') = SameKey l' l
Keeps l (err e) = Unit

SameKey-refl : (l : Link) → SameKey l l
SameKey-refl l = record {
  id = refl;
  tenant_id = refl;
  code = refl;
  click_count = refl;
  deleted_at = refl;
}

bind-Keeps :
    (l : Link) (m : Result Link) (f : Link → Result Link)
    → Keeps l m
    → ((a : Link) → SameKey a l → Keeps l (f a))
    → Keeps l (m >>= f)
bind-Keeps l (ok a) f h k = k a h
bind-Keeps l (err e) f h k = tt

patch_url-Keeps :
    (s : LinkService) (u : Option Bytes) (l a : Link) → SameKey a l → Keeps l (patch_url s u a)
unfolding patch_url
patch_url-Keeps s none l a h = h
patch_url-Keeps s (some u) l a h = go (validate_url s u)
  where
    go : (r : Result (Unit {0})) → Keeps l (r >>= λ _. ok (record a { target_url = u }))
    go (ok v) = ground arith
    go (err e) = tt

patch_redirect_type-Keeps :
    (rt : Option ℤ) (l a : Link) → SameKey a l → Keeps l (patch_redirect_type rt a)
unfolding patch_redirect_type
patch_redirect_type-Keeps none l a h = h
patch_redirect_type-Keeps (some rt) l a h = go (normalize_redirect_type rt)
  where
    go : (r : Result ℤ) → Keeps l (r >>= λ t. ok (record a { redirect_type = t }))
    go (ok v) = ground arith
    go (err e) = tt

patch_expires_at-Keeps :
    (now : ℕ) (c : Bool) (t : Option ℕ) (l a : Link)
    → SameKey a l
    → Keeps l (patch_expires_at now c t a)
unfolding patch_expires_at
patch_expires_at-Keeps now true t l a h = ground arith
patch_expires_at-Keeps now false none l a h = h
patch_expires_at-Keeps now false (some t) l a h = go (validate_expiry now (some t))
  where
    go : (r : Result (Unit {0})) → Keeps l (r >>= λ _. ok (record a { expires_at = some t }))
    go (ok v) = ground arith
    go (err e) = tt

patch_max_clicks-Keeps :
    (c : Bool) (m : Option ℤ) (l a : Link) → SameKey a l → Keeps l (patch_max_clicks c m a)
unfolding patch_max_clicks
patch_max_clicks-Keeps true m l a h = ground arith
patch_max_clicks-Keeps false none l a h = h
patch_max_clicks-Keeps false (some m) l a h = go (validate_max_clicks (some m))
  where
    go : (r : Result (Unit {0})) → Keeps l (r >>= λ _. ok (record a { max_clicks = some m }))
    go (ok v) = ground arith
    go (err e) = tt

pub patched-SameKey :
    (s : LinkService) (now tenant : ℕ) (input : UpdateLinkInput) (l : Link) {a : Link}
    → patched s now tenant input l ≡ ok a
    → SameKey a l
unfolding patched
patched-SameKey s now tenant input l {a} e = subst (Keeps l) e (
    bind-Keeps l _ _ (patch_url-Keeps s input.target_url l l (SameKey-refl l)) λ a h.
      bind-Keeps l _ _ (patch_redirect_type-Keeps input.redirect_type l a h) λ b h.
        bind-Keeps l _ _ (patch_expires_at-Keeps now input.clear_expires_at input.expires_at l b h)
          λ c h.
            bind-Keeps l _ _ (patch_max_clicks-Keeps input.clear_max_clicks input.max_clicks l c h)
              λ d h. ground arith)
