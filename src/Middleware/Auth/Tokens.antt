-- ===== src/Middleware/Auth/Tokens.antt =====
-- What `APIKeyAuth` has checked of a request that it lets through.
use go_link_shortener.Base.{◌≡◌, Bool, some, Bytes, arith, Option-cases, inl, inr}
use go_link_shortener.Domain.Errors.{Result, ok, err}
use go_link_shortener.Domain.ApiKey.{ApiKey}
use go_link_shortener.Store.ApiKeys.{Keys}
use go_link_shortener.Service.Auth.{authenticate}
use go_link_shortener.Service.Auth.Holder.{IsKeyOf, authenticate-IsKeyOf}
use go_link_shortener.Middleware.Auth.{passes, bearer_token, identified, api_key_auth}

-- the key stands behind the bearer token of the header
pub record IsBearerOf (trim_space hash : Bytes → Bytes) (keys : Keys) (header : Bytes) (k : ApiKey)
    : Type 0 where
  pub token : Bytes
  pub sent : bearer_token trim_space header ≡ some token
  pub owned : IsKeyOf hash keys token k

passes_eq : (a b : ApiKey) → passes a ≡ passes b → a ≡ b
passes_eq a b h = cc

identified-passes : (r : Result ApiKey) (k : ApiKey) → identified r ≡ passes k → r ≡ ok k
unfolding identified
identified-passes (ok j) k h = ground (arith, passes_eq j k)
identified-passes (err e) k h = cc

pub api_key_auth-passes :
    (trim hash : Bytes → Bytes) (fault : Bool) (header : Bytes) (keys : Keys) (k : ApiKey)
    → api_key_auth trim hash fault header keys ≡ passes k
    → IsBearerOf trim hash keys header k
unfolding api_key_auth
api_key_auth-passes trim hash fault header keys k h =
    elim (Option-cases (bearer_token trim header)) [
      | inl missing ↦ absurd (ground arith)
      | inr (token, sent) ↦ record {
        token = token;
        sent = sent;
        owned =
            authenticate-IsKeyOf hash fault token keys k
              (identified-passes (authenticate hash fault token keys) k (ground arith));
      }
    ]
