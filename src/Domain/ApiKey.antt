-- ===== src/Domain/ApiKey.antt =====
-- internal/domain/apikey.go. The SHA-256 digest is a parameter of the functions that use it.
use go_link_shortener.Base.{
  ℕ, ◌+◌, Bool, ◌&&◌, not, Option, none, some, ◌++◌, Bytes, codes, length, take, ltb, has_prefix,
  if◌then◌else◌,
}
use go_link_shortener.Domain.Link.{is_nil}
use go_link_shortener.Domain.Errors.{internal, Result, ok, err}

pub record ApiKey : Type 0 where
  pub id : ℕ
  pub tenant_id : ℕ
  pub name : Bytes
  pub prefix : Bytes
  pub hash : Bytes
  pub created_at : ℕ
  pub last_used_at : Option ℕ
  pub revoked_at : Option ℕ

unfoldable pub revoked : ApiKey → Bool
unfolding is_nil
revoked k = not (is_nil k.revoked_at)

abbrev pub key_prefix : Bytes
key_prefix = codes "sk_live_"

abbrev pub prefix_stored_len : ℕ
prefix_stored_len = length key_prefix + 8

unfoldable pub prefix_of : Bytes → Bytes
prefix_of plaintext =
    if ltb (length plaintext) prefix_stored_len then plaintext else take prefix_stored_len plaintext

unfoldable pub valid_key_format : Bytes → Bool
unfolding has_prefix
valid_key_format token = has_prefix token key_prefix && ltb prefix_stored_len (length token)

-- the plaintext, shown once, and what is stored of it
pub record GeneratedKey : Type 0 where
  pub plaintext : Bytes
  pub prefix : Bytes
  pub hash : Bytes

-- `GenerateAPIKey`: `secret` is the base64 text of the 24 random bytes, none if they cannot be read,
-- and `hash` is `HashAPIKey`, the hexadecimal SHA-256.
unfoldable pub generate_api_key : (Bytes → Bytes) → Option Bytes → Result GeneratedKey
generate_api_key hash none = err internal
generate_api_key hash (some secret) =
    let plaintext = key_prefix ++ secret in
    ok (record {
      plaintext = plaintext;
      prefix = take prefix_stored_len plaintext;
      hash = hash plaintext;
    })
