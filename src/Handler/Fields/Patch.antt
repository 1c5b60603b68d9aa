-- ===== src/Handler/Fields/Patch.antt =====
-- From the fields of a PATCH body to the patched link.
use go_link_shortener.Base.{
  ℕ, ◌≡◌, refl, ap, sym, subst, ◌∙◌, Bool, true, false, Option, none, some, Bytes, codes, ℤ, arith,
  if◌then◌else◌,
}
use go_link_shortener.Domain.Errors.{ok}
use go_link_shortener.Domain.Link.{Link}
use go_link_shortener.Service.Links.{LinkService, clamp_demo_expiry, normalize_redirect_type}
use go_link_shortener.Service.Links.Changes.{UpdateLinkInput, patched}
use go_link_shortener.Service.Links.Changes.Patching.{SameKey, patched-SameKey}
use go_link_shortener.Service.Links.Changes.Fields.{
  IsPatched, patched-IsPatched, Normalized, cleared_or, chosen,
}
use go_link_shortener.Handler.Fields.{
  RawFields, Json, Parsed, malformed, parsed, ◌>>=◌, lookup, is_json_null, field, nullable,
  clearing, read_as, build_update_input,
}

-- The new value of a field, by the raw field of the body: the old one when it is absent, what JSON
-- reads otherwise.
abbrev pub Set {ℓ} : {A : Type ℓ} → (Bytes → Option A) → Option Bytes → A → A → Type ℓ
Set read none old new = new ≡ old
Set read (some raw) old new = read raw ≡ some new

-- ... and nil when it is null
abbrev pub Nullable {ℓ} :
    {A : Type ℓ} → Json → (Bytes → Option A) → Option Bytes → Option A → Option A → Type ℓ
Nullable j read none old new = new ≡ old
Nullable j read (some raw) old new =
    if is_json_null j raw then new ≡ none else (a : _) × (read raw ≡ some a) × (new ≡ some a)

read_as-parsed {ℓ} :
    {A : Type ℓ} (message : Bytes) (r o : Option A)
    → read_as message r ≡ parsed o
    → (a : A) × (r ≡ some a) × (o ≡ some a)
unfolding read_as
read_as-parsed message none o e = absurd (ground arith)
read_as-parsed message (some a) o e = (a, refl, ground arith)

field-Set {ℓ} :
    {A : Type ℓ} (message : Bytes) (read : Bytes → Option A) (raw : Option Bytes) (o : Option A)
    (old : A)
    → field message read raw ≡ parsed o
    → Set read raw old (chosen o old)
unfolding field
field-Set message read none o old e = ground arith
field-Set message read (some raw) o old e =
    let (a, given, value) = read_as-parsed message (read raw) o e in rw value given

clearing-parsed {ℓ} :
    {A : Type ℓ} (p : Parsed (Option A)) (c : Bool) (o : Option A)
    → clearing p ≡ parsed (c, o)
    → (p ≡ parsed o) × (c ≡ false)
unfolding clearing
clearing-parsed (malformed m) c o e = absurd (ground arith)
clearing-parsed (parsed a) c o e = ground arith

nullable-Nullable {ℓ} :
    {A : Type ℓ} (j : Json) (message : Bytes) (read : Bytes → Option A) (raw : Option Bytes)
    (c : Bool) (o old : Option A)
    → nullable j message read raw ≡ parsed (c, o)
    → Nullable j read raw old (cleared_or c o old)
unfolding nullable
nullable-Nullable j message read none c o old e = ground arith
nullable-Nullable {A = A} j message read (some raw) c o old e = go (is_json_null j raw) e
  where
    go :
        (null : Bool)
        → (if null then parsed (true, none) else clearing (read_as message (read raw)))
          ≡ parsed (c, o)
        → if null
          then cleared_or c o old ≡ none
          else (a : A) × (read raw ≡ some a) × (cleared_or c o old ≡ some a)
    go true h = ground arith
    go false h =
        let (p, clear) = clearing-parsed (read_as message (read raw)) c o h in
        let (a, given, value) = read_as-parsed message (read raw) o p in
        (a, given, ap (λ b. cleared_or b o old) clear ∙ ap (λ v. cleared_or false v old) value)

bind_parsed {ℓ κ} :
    {A : Type ℓ}
    → {B : Type κ} → (m : Parsed A) (f : A → Parsed B) (b : B) → (m >>= f) ≡ parsed b
    → (a : A) × (m ≡ parsed a) × (f a ≡ parsed b)
bind_parsed (parsed a) f b e = (a, refl, e)
bind_parsed (malformed x) f b e = absurd (ground arith)

parsed_injective {ℓ} : {A : Type ℓ} {x y : A} → parsed x ≡ parsed y → x ≡ y
parsed_injective e = ground (arith, e)

abbrev pub RedirectSet : Json → Option Bytes → ℤ → ℤ → Type 0
RedirectSet j none old new = new ≡ old
RedirectSet j (some raw) old new =
    (n : ℤ) × (j.as_int raw ≡ some n) × (normalize_redirect_type n ≡ ok new)

-- `a` is `l` as the body says.
pub record IsPatchedBy (j : Json) (fields : RawFields) (s : LinkService) (now tenant : ℕ)
    (l a : Link) : Type 0 where
  pub url : Set j.as_string (lookup (codes "url") fields) l.target_url a.target_url
  pub redirect :
      RedirectSet j (lookup (codes "redirect_type") fields) l.redirect_type a.redirect_type
  pub expiry :
      (t : Option ℕ) × Nullable j j.as_time (lookup (codes "expires_at") fields) l.expires_at t
      × (a.expires_at ≡ clamp_demo_expiry s now tenant t)
  pub clicks : Nullable j j.as_int64 (lookup (codes "max_clicks") fields) l.max_clicks a.max_clicks
  pub rest : SameKey a l

field-RedirectSet :
    (j : Json) (message : Bytes) (raw : Option Bytes) (o : Option ℤ) (old new : ℤ)
    → field message j.as_int raw ≡ parsed o
    → Normalized o old new
    → RedirectSet j raw old new
unfolding field
field-RedirectSet j message none none old new e n = n
field-RedirectSet j message none (some rt) old new e n = absurd (ground arith)
field-RedirectSet j message (some raw) o old new e n =
    let (rt, given, value) = read_as-parsed message (j.as_int raw) o e in
    (rt, given, subst (λ v. Normalized v old new) value n)

-- A body that is accepted changes exactly the fields it names: an absent field keeps its value, a
-- null `expires_at` or `max_clicks` is cleared, and any other value is what JSON reads, the redirect
-- type normalised and the expiry then capped for the demo tenant. Id, tenant, code, click count and
-- deletion stay.
pub build_update_input-IsPatchedBy :
    (j : Json) (fields : RawFields) (input : UpdateLinkInput) (s : LinkService) (now tenant : ℕ)
    (l a : Link)
    → build_update_input j fields ≡ parsed input
    → patched s now tenant input l ≡ ok a
    → IsPatchedBy j fields s now tenant l a
unfolding build_update_input
build_update_input-IsPatchedBy j fields input s now tenant l a e p =
    let (u, eu, fu) = bind_parsed (field _ j.as_string (lookup (codes "url") fields)) _ input e in
    let (r, er, fr) =
      bind_parsed (field _ j.as_int (lookup (codes "redirect_type") fields)) _ input fu in
    let (x, ex, fx) =
      bind_parsed (nullable j _ j.as_time (lookup (codes "expires_at") fields)) _ input fr in
    let (m, em, fm) =
      bind_parsed (nullable j _ j.as_int64 (lookup (codes "max_clicks") fields)) _ input fx in
    let done =
      subst (λ i. IsPatched s now tenant i l a) (sym (parsed_injective fm))
        (patched-IsPatched s now tenant input l a p) in
    record {
      url =
          subst (Set j.as_string (lookup (codes "url") fields) l.target_url) (sym done.url)
            (field-Set _ j.as_string (lookup (codes "url") fields) u l.target_url eu);
      redirect =
          field-RedirectSet j _ (lookup (codes "redirect_type") fields) r l.redirect_type
            a.redirect_type er done.redirect;
      expiry = (
        cleared_or x.0 x.1 l.expires_at,
        nullable-Nullable j _ j.as_time (lookup (codes "expires_at") fields) x.0 x.1 l.expires_at
            ex,
        done.expiry,
      );
      clicks =
          subst (Nullable j j.as_int64 (lookup (codes "max_clicks") fields) l.max_clicks)
            (sym done.clicks)
            (nullable-Nullable j _ j.as_int64 (lookup (codes "max_clicks") fields) m.0 m.1
              l.max_clicks em);
      rest = patched-SameKey s now tenant input l p;
    }
