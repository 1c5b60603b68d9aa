-- ===== src/Middleware/Observability.antt =====
-- internal/middleware/observability.go, and the chain of global middleware that `newRouter` of
-- cmd/server/main.go builds. A handler takes an exchange to the end or panics. `recovered`, what
-- gin.Recovery makes of an exchange whose handler panicked, `decimal` and the clock are parameters.
pub mod Chain
use go_link_shortener.Base.{
  ℕ, ◌-◌, ◌/◌, Bool, Option, none, some, List, [], ◌∷◌, ◌++◌, Bytes, codes, bytes_eq, leb,
  if◌then◌else◌,
}
use go_link_shortener.Metrics.{Sample, observe_http}
use go_link_shortener.Middleware.Context.{
  Values, string, set_value, ctx_key_request_id, tenant_id, get_request_id,
}

pub data Level : Type 0 where
  level_info : Level
  level_warn : Level
  level_error : Level

-- one structured line: its level, and the attributes
pub record LogLine : Type 0 where
  pub level : Level
  pub method : Bytes
  pub path : Bytes
  pub status : ℕ
  pub latency_ms : ℕ
  pub size : ℕ
  pub client_ip : Bytes
  pub request_id : Bytes
  pub tenant : Option ℕ

-- a request and the state of its gin context; `route` is FullPath, `now` the time in nanoseconds,
-- `request_header` and `response_header` the two X-Request-ID
pub record Exchange : Type 0 where
  pub method : Bytes
  pub path : Bytes
  pub route : Bytes
  pub client_ip : Bytes
  pub request_header : Bytes
  pub values : Values
  pub response_header : Bytes
  pub status : ℕ
  pub size : ℕ
  pub now : ℕ
  pub logs : List LogLine
  pub samples : List Sample

pub data Outcome : Type 0 where
  completes : Exchange → Outcome
  panics : Exchange → Outcome

abbrev pub Handler : Type 0
Handler = Exchange → Outcome

-- `fresh` is uuid.NewString()
unfoldable pub request_id : Bytes → Handler → Handler
unfolding bytes_eq
request_id fresh next x =
    let id = if bytes_eq x.request_header [] then fresh else x.request_header in
    next (record x {
      values = set_value ctx_key_request_id (string id) x.values;
      response_header = id;
    })

unfoldable pub level_of : ℕ → Level
level_of status =
    if leb 500 status then level_error else if leb 400 status then level_warn else level_info

unfoldable pub log_line : ℕ → Exchange → LogLine
unfolding level_of tenant_id get_request_id
log_line start y = record {
  level = level_of y.status;
  method = y.method;
  path = y.path;
  status = y.status;
  latency_ms = (y.now - start) / 1000000;
  size = y.size;
  client_ip = y.client_ip;
  request_id = get_request_id y.values;
  tenant = tenant_id y.values;
}

-- What comes after c.Next() is not deferred: a panic passes it by.
abbrev pub logged : ℕ → Outcome → Outcome
logged start (completes y) = completes (record y { logs = y.logs ++ (log_line start y ∷ []) })
logged start (panics y) = panics y

unfoldable pub request_logger : Handler → Handler
request_logger next x = logged x.now (next x)

unfoldable pub route_label : Bytes → Bytes
unfolding bytes_eq
route_label route = if bytes_eq route [] then codes "unmatched" else route

abbrev pub measured : (ℕ → Bytes) → ℕ → Outcome → Outcome
measured decimal start (completes y) = completes (record y {
  samples =
      y.samples ++ observe_http y.method (route_label y.route) (decimal y.status) (y.now - start);
})
measured decimal start (panics y) = panics y

unfoldable pub metrics : (ℕ → Bytes) → Handler → Handler
metrics decimal next x = measured decimal x.now (next x)

abbrev pub rescued : (Exchange → Exchange) → Outcome → Outcome
rescued recovered (completes y) = completes y
rescued recovered (panics y) = completes (recovered y)

abbrev pub recovery : (Exchange → Exchange) → Handler → Handler
recovery recovered next x = rescued recovered (next x)

-- r.Use, in its order
unfoldable pub chain : Bytes → (Exchange → Exchange) → (ℕ → Bytes) → Handler → Handler
unfolding request_id request_logger metrics
chain fresh recovered decimal handler =
    request_id fresh (recovery recovered (request_logger (metrics decimal handler)))
