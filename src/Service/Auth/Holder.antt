-- ===== src/Service/Auth/Holder.antt =====
-- What `Authenticate` has checked of a key that it returns.
use go_link_shortener.Base.{◌≡◌, Bool, true, false, none, some, Bytes, find, arith}
use go_link_shortener.Domain.Errors.{ok}
use go_link_shortener.Domain.Link.{is_nil}
use go_link_shortener.Domain.ApiKey.{ApiKey, revoked, valid_key_format}
use go_link_shortener.Store.ApiKeys.{Keys, has_hash, get_by_hash}
use go_link_shortener.Service.Auth.{found, authenticate}

-- `token` is the key of `k`, whose row is in the table and not revoked.
pub record IsKeyOf (hash : Bytes → Bytes) (keys : Keys) (token : Bytes) (k : ApiKey) : Type 0 where
  pub format : valid_key_format token ≡ true
  pub row : find (has_hash (hash token)) keys ≡ some k
  pub current : k.revoked_at ≡ none

pub authenticate-IsKeyOf :
    (hash : Bytes → Bytes) (fault : Bool) (token : Bytes) (keys : Keys) (k : ApiKey)
    → authenticate hash fault token keys ≡ ok k
    → IsKeyOf hash keys token k
unfolding authenticate found get_by_hash revoked is_nil
authenticate-IsKeyOf hash true token keys k h = absurd (ground arith)
authenticate-IsKeyOf hash false token keys k h = ground arith
