-- ===== src/Examples/Traffic.antt =====
-- The redirect race, the waits of the rate limit, the log of a request and a run of the process on
-- concrete data, and the theorems applied to them.
use mathlib.Core.List.Perm
use go_link_shortener.Store.Clicks.{tally, increment}
use go_link_shortener.Domain.Link.{Link}
use go_link_shortener.Analytics.Flush.{evict_all}
use go_link_shortener.Analytics.Flush.Ordering.{increment-any_order}
use go_link_shortener.Examples.Data.{warm, a_click}
use go_link_shortener.Base.{
  bytes_eq, ◌+◌, ◌*◌, ◌%◌, ◌<◌, ◌≡◌, refl, not, ◌&&◌, true, false, none, some, [], ◌∷◌, codes, leb,
  ◌==◌, arith,
}
use go_link_shortener.Domain.Errors.{ok}
use go_link_shortener.Domain.Link.{is_active}
use go_link_shortener.Store.Db.{is_live}
use go_link_shortener.Store.Links.{get_by_code}
use go_link_shortener.Store.RateLimit.{allow, sliding_window}
use go_link_shortener.Store.RateLimit.Window.{Ascending, replay as replay_requests}
use go_link_shortener.Store.RateLimit.Retry.{bucket_after, retry_after-exact}
use go_link_shortener.Middleware.RateLimit.{Buckets, retry_seconds, rate_limit}
use go_link_shortener.Middleware.RateLimit.Waiting.{is_rejected, rate_limit-early}
use go_link_shortener.Service.Redirect.{backfill, resolve}
use go_link_shortener.Service.Redirect.Agreement.{served, serve}
use go_link_shortener.Service.Redirect.Races.{resolve-late_backfill}
use go_link_shortener.Service.Links.Changes.{update}
use go_link_shortener.Middleware.Observability.{Exchange, completes, Handler, chain}
use go_link_shortener.Middleware.Observability.Chain.{entered, chosen_id, Observed, chain-Observed}
use go_link_shortener.Server.Lifecycle.{Startup, signalled, run}
use go_link_shortener.Server.Lifecycle.Discipline.{none_open, replay, run-replay}
use go_link_shortener.Server.Lifecycle.Draining.{Ends, run-Ends}
use go_link_shortener.Examples.Data.{
  hello, a_link, cold, ttls, no_faults, service, a_change, a_patch,
}
use go_link_shortener.Examples.Accounts.{crypto, seed_env, nobody}
use go_link_shortener.Examples.Background.{environment}

-- The row is read, an update changes its target and evicts the cache, and then the read is written.
resolve-late_backfill_example :
    served
      (resolve ttls no_faults 60 hello
        (backfill ttls false 30 hello
          (update service a_change 1 7 a_patch cold).1
          (get_by_code false hello cold.db)).1).0
    ≡ ok (serve a_link)
unfolding get_by_code is_active bytes_eq is_live
resolve-late_backfill_example =
    resolve-late_backfill ttls no_faults 30 60 hello a_link cold
      (update service a_change 1 7 a_patch cold).1 refl refl refl refl

retry_after-exact_example :
    (0 < (sliding_window 1300 2000 1 (bucket_after 2000 1 (1200 ∷ []))).0.retry_after)
    × ((sliding_window 2300 2000 1
          (sliding_window 1300 2000 1 (bucket_after 2000 1 (1200 ∷ []))).1).0.allowed
        ≡ leb
            (1300 + (sliding_window 1300 2000 1 (bucket_after 2000 1 (1200 ∷ []))).0.retry_after)
            2300)
unfolding Ascending sliding_window replay_requests
retry_after-exact_example =
    retry_after-exact 2000 1 (1200 ∷ []) 1300 2300 (ground arith, (ground arith, tt)) (ground arith)
      refl

abbrev one_bucket : Buckets
one_bucket tenant = bucket_after 2000 1 (1200 ∷ [])

-- a wait of 1.9 seconds, and a Retry-After of 1
rate_limit-early_example :
    is_rejected
      (rate_limit false
        (1300 + 1000 * retry_seconds 1900)
        2000
        1
        5
        (rate_limit false 1300 2000 1 5 one_bucket).1).0
    ≡ (leb 1000 1900 && not (1900 % 1000 == 0))
unfolding Ascending sliding_window replay_requests rate_limit allow
rate_limit-early_example =
    rate_limit-early 2000 1 (1200 ∷ []) 1300 5 1900 one_bucket (ground arith, (ground arith, tt))
      (ground arith) refl refl refl

abbrev startup : Startup
startup = record {
  environment = environment;
  hash = crypto.hash;
  postgres_up = true;
  migrated = true;
  seed_env = seed_env;
  redis_up = true;
  ending = signalled;
  http_stopped = true;
  pipeline_drained = false;
  dispatcher_drained = true;
}

run-replay_example : replay (some none_open) (run startup nobody).actions ≡ some none_open
run-replay_example = run-replay startup nobody

run-Ends_example : Ends startup (run startup nobody)
run-Ends_example = run-Ends startup nobody

abbrev exchange : Exchange
exchange = record {
  method = codes "GET";
  path = codes "/hello";
  route = codes "/:code";
  client_ip = codes "10.0.0.1";
  request_header = [];
  values = λ key. none;
  response_header = [];
  status = 200;
  size = 0;
  now = 5000000;
  logs = [];
  samples = [];
}

abbrev not_found_handler : Handler
not_found_handler x = completes (record x { status = 404; size = 9; now = 9000000 })

chain-Observed_example :
    Observed
      (chosen_id (codes "id-1"))
      (λ n. n ∷ [])
      exchange
      (not_found_handler (entered (codes "id-1") exchange))
      (chain (codes "id-1") (λ e. e) (λ n. n ∷ []) not_found_handler exchange)
chain-Observed_example =
    chain-Observed (codes "id-1") (λ e. e) (λ n. n ∷ []) not_found_handler exchange
      (λ e. (refl, refl))
      (record {
        same_id = refl;
        same_header = refl;
        same_logs = refl;
        same_method = refl;
        same_route = refl;
      })

abbrev other_link : Link
other_link = record a_link { id = 8; code = codes "other" }

-- the clicks of link 7 first, and the other order
increment-any_order_example :
    ((increment 40 ((8, 1) ∷ (7, 2) ∷ []) (a_link ∷ other_link ∷ [])).1
      ≡ (increment 40
          (tally [] (a_click ∷ record a_click { link_id = 8 } ∷ a_click ∷ []))
          (a_link ∷ other_link ∷ [])).1)
    × (evict_all true false
          (increment 40 ((8, 1) ∷ (7, 2) ∷ []) (a_link ∷ other_link ∷ [])).0
          warm.redis
        ≡ evict_all true false
            (increment 40
              (tally [] (a_click ∷ record a_click { link_id = 8 } ∷ a_click ∷ []))
              (a_link ∷ other_link ∷ [])).0
            warm.redis)
unfolding tally
increment-any_order_example =
    increment-any_order 40 ((8, 1) ∷ (7, 2) ∷ [])
      (a_click ∷ record a_click { link_id = 8 } ∷ a_click ∷ []) (a_link ∷ other_link ∷ []) true
      false warm.redis (Perm.swap (7, 2) (8, 1) []) (refl, (refl, tt))
