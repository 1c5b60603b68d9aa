-- ===== src/Service/Auth.antt =====
-- internal/service/auth.go. `hash` is `domain.HashAPIKey`.
pub mod Holder
pub mod Rotation
use go_link_shortener.Base.{ℕ, Bool, true, false, not, List, [], ◌∷◌, Bytes, if◌then◌else◌}
use go_link_shortener.Domain.Errors.{not_found, unauthorized, Result, ok, err}
use go_link_shortener.Domain.ApiKey.{ApiKey, revoked, valid_key_format}
use go_link_shortener.Store.ApiKeys.{Keys, get_by_hash, touch_last_used}

found : Result ApiKey → Result ApiKey
unfolding revoked
found (err not_found) = err unauthorized
found (err e) = err e
found (ok k) = if revoked k then err unauthorized else ok k

unfoldable pub authenticate : (Bytes → Bytes) → Bool → Bytes → Keys → Result ApiKey
unfolding valid_key_format found
authenticate hash fault token keys =
    if not (valid_key_format token)
    then err unauthorized
    else found (get_by_hash fault (hash token) keys)

-- What the goroutine that `Authenticate` starts does to the keys; its error is only logged.
unfoldable pub touch : Bool → ℕ → ApiKey → Keys → Keys
unfolding touch_last_used
touch fault now k keys = (touch_last_used fault now k.id keys).1
