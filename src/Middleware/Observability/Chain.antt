-- ===== src/Middleware/Observability/Chain.antt =====
-- What is logged and measured of a request.
use go_link_shortener.Base.{
  inl, inr, codes, ◌<◌, leb, ◌≤◌, List, Bool-cases, subst, sym, ℕ, ◌-◌, ◌≡◌, refl, [], ◌∷◌, ◌++◌,
  Bytes, bytes_eq, if◌then◌else◌, arith,
}
use go_link_shortener.Metrics.{http_requests, incs, http_duration, observes}
use go_link_shortener.Middleware.Context.{string, ctx_key_request_id, set_value, get_request_id}
use go_link_shortener.Middleware.Observability.{
  level_info, level_warn, level_error, Level, Exchange, Outcome, completes, panics, Handler,
  LogLine, request_id, request_logger, metrics, level_of, log_line, logged, measured, rescued,
  route_label, chain,
}

-- the id that RequestID gives a request
abbrev pub chosen_id : Bytes → Exchange → Bytes
chosen_id fresh x = if bytes_eq x.request_header [] then fresh else x.request_header

abbrev pub exchange_of : Outcome → Exchange
exchange_of (completes y) = y
exchange_of (panics y) = y

-- what a handler leaves alone; it can touch collectors of its own
pub record LeavesAlone (x y : Exchange) : Type 0 where
  pub same_id : get_request_id y.values ≡ get_request_id x.values
  pub same_header : y.response_header ≡ x.response_header
  pub same_logs : y.logs ≡ x.logs
  pub same_method : y.method ≡ x.method
  pub same_route : y.route ≡ x.route

-- the exchange that reaches the handler
abbrev pub entered : Bytes → Exchange → Exchange
entered fresh x = record x {
  values = set_value ctx_key_request_id (string (chosen_id fresh x)) x.values;
  response_header = chosen_id fresh x;
}

-- an error from 500 on, a warning from 400 on, and else plain information
abbrev pub IsLevelOf : ℕ → Level → Type 0
IsLevelOf status level_error = 500 ≤ status
IsLevelOf status level_warn = (400 ≤ status) × (status < 500)
IsLevelOf status level_info = status < 400

-- the method, the route template, and the status; a request that no route matches has no template
abbrev pub labels : (ℕ → Bytes) → Exchange → ℕ → List Bytes
labels decimal x status =
    x.method ∷ (if bytes_eq x.route [] then codes "unmatched" else x.route) ∷ decimal status ∷ []

-- what the chain has to make of an outcome of the handler
abbrev pub Observed : (Exchange → Bytes) → (ℕ → Bytes) → Exchange → Outcome → Outcome → Type 0
Observed id decimal x (completes y) r =
    (exchange_of r).status ≡ y.status
    × ((exchange_of r).response_header ≡ id x)
    × ((line : LogLine) × ((exchange_of r).logs ≡ x.logs ++ (line ∷ []))
        × (line.request_id ≡ id x)
        × (line.status ≡ y.status)
        × IsLevelOf y.status line.level)
    × ((exchange_of r).samples
        ≡ y.samples
          ++ (observes http_duration (labels decimal x y.status) (y.now - x.now)
              ∷ incs http_requests (labels decimal x y.status)
              ∷ []))
Observed id decimal x (panics y) r =
    ((exchange_of r).logs ≡ x.logs) × ((exchange_of r).samples ≡ y.samples)

level_of-IsLevelOf : (status : ℕ) → IsLevelOf status (level_of status)
unfolding level_of
level_of-IsLevelOf status = elim (Bool-cases (leb 500 status)) [
  | inl high ↦ rw high (ground arith)
  | inr low ↦ elim (Bool-cases (leb 400 status)) [
    | inl middle ↦ rw (low, middle) (ground arith)
    | inr lower ↦ rw (low, lower) (ground arith)
  ]
]

route_label-eq :
    (route : Bytes) → route_label route ≡ (if bytes_eq route [] then codes "unmatched" else route)
unfolding route_label
route_label-eq route = refl

module _ (fresh : Bytes) (recovered : Exchange → Exchange) (decimal : ℕ → Bytes) (handler : Handler)
    (x : Exchange) where
  -- what the middleware makes of an outcome of the handler
  abbrev settled : Outcome → Outcome
  settled o = rescued recovered (logged x.now (measured decimal x.now o))

  chain-settled : chain fresh recovered decimal handler x ≡ settled (handler (entered fresh x))
  unfolding chain request_id request_logger metrics
  chain-settled = refl

  settled-Observed :
      (o : Outcome)
      → ((e : Exchange) → ((recovered e).logs ≡ e.logs) × ((recovered e).samples ≡ e.samples))
      → LeavesAlone (entered fresh x) (exchange_of o)
      → Observed (chosen_id fresh) decimal x o (settled o)
  unfolding log_line get_request_id bytes_eq
  settled-Observed (completes y) keeps alone = (
    refl,
    alone.same_header,
    (
      log_line x.now y,
      ground (arith, alone.same_logs),
      alone.same_id,
      refl,
      level_of-IsLevelOf y.status,
    ),
    rw (alone.same_method, alone.same_route, route_label-eq x.route) refl,
  )
  settled-Observed (panics y) keeps alone = (ground (arith, keeps y), ground (arith, keeps y))

  -- If the handler completes and leaves the id, the logs, the method and the route alone, the request
  -- gets exactly one log line, which is an error from status 500 on, a warning from 400 on and else plain
  -- information, and, after what the handler itself measured, one observation of latency and one count
  -- under method, status and route template, or "unmatched" without a template; the line and the response
  -- carry the id of the request, its own or a fresh one. If the handler panics, nothing is logged, and
  -- nothing is measured but what the handler did, provided that Recovery does not do so itself.
  pub chain-Observed :
      ((e : Exchange) → ((recovered e).logs ≡ e.logs) × ((recovered e).samples ≡ e.samples))
      → LeavesAlone (entered fresh x) (exchange_of (handler (entered fresh x)))
      → Observed
          (chosen_id fresh)
          decimal
          x
          (handler (entered fresh x))
          (chain fresh recovered decimal handler x)
  chain-Observed keeps alone =
      subst (Observed (chosen_id fresh) decimal x (handler (entered fresh x))) (sym chain-settled)
        (settled-Observed (handler (entered fresh x)) keeps alone)
