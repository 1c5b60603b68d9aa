-- ===== src/Middleware/Auth.antt =====
-- internal/middleware/auth.go and context.go. `strings.TrimSpace` is a parameter; the fold of
-- `strings.EqualFold` is that of ASCII, since no other letter folds to one of "Bearer ".
pub mod Tokens
use go_link_shortener.Base.{
  ℕ, ◌+◌, Bool, ◌&&◌, ◌||◌, not, Option, none, some, List, [], Bytes, codes, bytes_eq, length, take,
  drop, leb, map, if◌then◌else◌,
}
use go_link_shortener.Domain.Errors.{Result, ok, err}
use go_link_shortener.Domain.ApiKey.{ApiKey}
use go_link_shortener.Store.ApiKeys.{Keys}
use go_link_shortener.Service.Auth.{authenticate}
use go_link_shortener.Http.{Reply, failed, code_unauthorized}

unfoldable pub fold_byte : ℕ → ℕ
fold_byte c = if leb 65 c && leb c 90 then c + 32 else c

unfoldable pub equal_fold : Bytes → Bytes → Bool
unfolding fold_byte
equal_fold a b = bytes_eq (map fold_byte a) (map fold_byte b)

abbrev pub bearer_prefix : Bytes
bearer_prefix = codes "Bearer "

unfoldable pub bearer_token : (Bytes → Bytes) → Bytes → Option Bytes
unfolding equal_fold bytes_eq
bearer_token trim_space h =
    if leb (length h) (length bearer_prefix)
      || not (equal_fold (take (length bearer_prefix) h) bearer_prefix)
    then none
    else let token = trim_space (drop (length bearer_prefix) h) in
      if bytes_eq token [] then none else some token

-- What a middleware does: abort with an answer, or go on with the key in the context.
pub data Outcome : Type 0 where
  aborts : Reply → Outcome
  passes : ApiKey → Outcome

identified : Result ApiKey → Outcome
identified (err e) = aborts (failed 401 code_unauthorized (codes "invalid API key"))
identified (ok k) = passes k

unfoldable pub api_key_auth : (Bytes → Bytes) → (Bytes → Bytes) → Bool → Bytes → Keys → Outcome
unfolding bearer_token identified
api_key_auth trim_space hash fault header keys = elim (bearer_token trim_space header) [
  | none ↦ aborts (failed 401 code_unauthorized (codes "missing or malformed Authorization header"))
  | some token ↦ identified (authenticate hash fault token keys)
]
