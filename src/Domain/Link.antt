-- ===== src/Domain/Link.antt =====
-- internal/domain/link.go. UUIDs are numbers, times are nanoseconds since the epoch, strings are
-- lists of bytes; a nil pointer is `none`.
use go_link_shortener.Base.{ℕ, Bool, ◌&&◌, not, Option, none, some, Bytes, ℤ, pos, leb_ℤ, ltb}

pub record Link : Type 0 where
  pub id : ℕ
  pub tenant_id : ℕ
  pub code : Bytes
  pub target_url : Bytes
  pub redirect_type : ℤ
  pub expires_at : Option ℕ
  pub max_clicks : Option ℤ
  pub click_count : ℕ
  pub created_at : ℕ
  pub updated_at : ℕ
  pub deleted_at : Option ℕ

abbrev pub redirect_found : ℤ
redirect_found = pos 302

abbrev pub redirect_permanent : ℤ
redirect_permanent = pos 301

unfoldable pub is_nil {ℓ} : {A : Type ℓ} → Option A → Bool
is_nil none = Bool.true
is_nil (some a) = Bool.false

expired_at : Option ℕ → ℕ → Bool
expired_at none now = Bool.false
expired_at (some t) now = not (ltb now t)

unfoldable pub is_expired : Link → ℕ → Bool
unfolding expired_at
is_expired l now = expired_at l.expires_at now

exhausted_by : Option ℤ → ℕ → Bool
exhausted_by none n = Bool.false
exhausted_by (some m) n = leb_ℤ m (pos n)

unfoldable pub is_exhausted : Link → Bool
unfolding exhausted_by
is_exhausted l = exhausted_by l.max_clicks l.click_count

unfoldable pub is_active : Link → ℕ → Bool
unfolding is_nil is_expired is_exhausted
is_active l now = is_nil l.deleted_at && not (is_expired l now) && not (is_exhausted l)
