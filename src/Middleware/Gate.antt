-- ===== src/Middleware/Gate.antt =====
-- The group /api/v1 of `newRouter` in cmd/server/main.go: authentication, then the limit of the
-- tenant, if it is switched on.
pub mod Entry
use go_link_shortener.Base.{ℕ, Bool, true, false, Option, none, some, Bytes, if◌then◌else◌}
use go_link_shortener.Domain.ApiKey.{ApiKey}
use go_link_shortener.Store.ApiKeys.{Keys}
use go_link_shortener.Service.Auth.{touch}
use go_link_shortener.Http.{Reply}
use go_link_shortener.Middleware.Auth.{Outcome, aborts, passes, api_key_auth}
use go_link_shortener.Middleware.RateLimit.{
  Buckets, LimitHeaders, Admission, admitted, rejected, rate_limit,
}

-- The functions of other packages that the two middlewares call.
pub record Crypto : Type 0 where
  pub trim_space : Bytes → Bytes
  pub hash : Bytes → Bytes

pub record Limits : Type 0 where
  pub enabled : Bool
  pub requests : ℕ
  pub window : ℕ

-- What one request meets; `touched_at` and `touch_fails` are for the bookkeeping of Authenticate.
pub record GateEnv : Type 0 where
  pub now : ℕ
  pub keys_fail : Bool
  pub limiter_fails : Bool
  pub touch_fails : Bool
  pub touched_at : ℕ

pub data Gated : Type 0 where
  stopped : Reply → Gated
  enters : ApiKey → Option LimitHeaders → Gated

admission : ApiKey → Admission × Buckets → Gated × Buckets
admission k (admitted h, buckets) = (enters k h, buckets)
admission k (rejected h reply, buckets) = (stopped reply, buckets)

limited : Limits → GateEnv → Buckets → Outcome → Gated × Buckets
unfolding admission
limited l env buckets (aborts reply) = (stopped reply, buckets)
limited l env buckets (passes k) =
    if l.enabled
    then admission k (rate_limit env.limiter_fails env.now l.window l.requests k.tenant_id buckets)
    else (enters k none, buckets)

-- The keys after the middleware of authentication. Authenticate's write of `last_used_at` runs in a
-- goroutine of its own, whether or not the limiter then refuses; here it runs at once.
unfoldable pub after_auth : GateEnv → Outcome → Keys → Keys
unfolding touch
after_auth env (aborts reply) keys = keys
after_auth env (passes k) keys = touch env.touch_fails env.touched_at k keys

unfoldable pub api_gate : Crypto → Limits → GateEnv → Bytes → Keys → Buckets → Gated × Buckets
unfolding limited
api_gate c l env header keys buckets =
    limited l env buckets (api_key_auth c.trim_space c.hash env.keys_fail header keys)
