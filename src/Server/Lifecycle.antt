-- ===== src/Server/Lifecycle.antt =====
-- `run` of cmd/server/main.go: what a process opens, starts, drains and closes, in which order, and on
-- which conditions. The actions stand for the calls; what each does is in the module of its part.
pub mod Discipline
pub mod Draining
use go_link_shortener.Base.{
  ℕ, Bool, true, false, not, ◌||◌, Option, none, some, List, [], ◌∷◌, ◌++◌, Bytes, codes, length, ℤ,
  pos, ltb_ℤ, if◌then◌else◌,
}
use go_link_shortener.Domain.Errors.{Result, ok, err}
use go_link_shortener.Domain.Tenant.{Tenant}
use go_link_shortener.Seed.{Accounts, SeedEnv, demo}
use go_link_shortener.Config.{Environment, Settings, DemoConfig, load}
use go_link_shortener.Analytics.Pipeline.{Pipeline}
use go_link_shortener.Middleware.Auth.{equal_fold}
use go_link_shortener.Metrics.{Sample, set_queue_depth}

pub data Action : Type 0 where
  opens_postgres : Action
  migrates : Action
  seeds_demo : Action
  opens_redis : Action
  starts_dispatcher : Action
  starts_pipeline : Action
  caps_demo_links : ℕ → ℤ → Action
  starts_janitor : ℕ → Action
  listens : Action
  stops_http : Action
  stops_pipeline : Action
  warns_pipeline : Action
  stops_dispatcher : Action
  warns_dispatcher : Action
  closes_redis : Action
  closes_postgres : Action

-- how the wait of `run` ends
pub data Ending : Type 0 where
  serve_failed : Ending
  signalled : Ending

-- What one run meets: which of its calls succeed. `http_stopped`, `pipeline_drained` and
-- `dispatcher_drained` say whether the three calls of Shutdown return no error before the deadline.
pub record Startup : Type 0 where
  pub environment : Environment
  pub hash : Bytes → Bytes
  pub postgres_up : Bool
  pub migrated : Bool
  pub seed_env : SeedEnv
  pub redis_up : Bool
  pub ending : Ending
  pub http_stopped : Bool
  pub pipeline_drained : Bool
  pub dispatcher_drained : Bool

-- the actions of a part of `run`, the accounts, and whether it returns no error
pub record Course : Type 0 where
  pub actions : List Action
  pub accounts : Accounts
  pub succeeds : Bool

abbrev pub returns : Bool → Accounts → Course
returns b a = record { actions = []; accounts = a; succeeds = b }

-- an action before the rest
abbrev pub first : Action → Course → Course
first x c = record c { actions = x ∷ c.actions }

-- a deferred action, after the rest
abbrev pub deferred : Action → Course → Course
deferred x c = record c { actions = c.actions ++ (x ∷ []) }

-- IsDev of internal/config/config.go
unfoldable pub is_dev : Settings → Bool
is_dev c = equal_fold c.env (codes "dev")

-- the warning that `run` logs when a part did not drain before the deadline
abbrev pub warned : Bool → Action → Course → Course
warned drained x c = if drained then c else first x c

-- an error of Shutdown of the pipeline or of the dispatcher is only logged
unfoldable pub shut_down : Startup → Accounts → Course
shut_down s a =
    if not s.http_stopped
    then first stops_http (returns false a)
    else first stops_http (
        first stops_pipeline (
          warned s.pipeline_drained warns_pipeline (
            first stops_dispatcher
              (warned s.dispatcher_drained warns_dispatcher (returns true a)))))

unfoldable pub await : Startup → Ending → Accounts → Course
unfolding shut_down
await s serve_failed a = returns false a
await s signalled a = shut_down s a

-- the block `if demoTenant != nil`
unfoldable pub guard_demo : DemoConfig → Option Tenant → Course → Course
guard_demo c none rest = rest
guard_demo c (some t) rest =
    let running = first (starts_janitor t.id) rest in
    if ltb_ℤ (pos 0) c.max_link_ttl
    then first (caps_demo_links t.id c.max_link_ttl) running
    else running

unfoldable pub with_redis : Startup → Settings → Option Tenant → Accounts → Course
unfolding guard_demo await
with_redis s c t a =
    if not s.redis_up
    then returns false a
    else first opens_redis (
        deferred closes_redis (
          first starts_dispatcher
            (first starts_pipeline (guard_demo c.demo t (first listens (await s s.ending a))))))

-- a failed seed is only logged, and leaves no demo tenant
seeded : Startup → Settings → Result Tenant × Accounts → Course
unfolding with_redis
seeded s c (ok t, a) = first seeds_demo (with_redis s c (some t) a)
seeded s c (err e, a) = first seeds_demo (with_redis s c none a)

unfoldable pub with_postgres : Startup → Settings → Accounts → Course
unfolding seeded demo with_redis
with_postgres s c a =
    if not s.migrated
    then first migrates (returns false a)
    else first migrates (
        if is_dev c || c.demo.seed
        then seeded s c (demo s.hash s.seed_env a)
        else with_redis s c none a)

configured : Startup → Accounts → Option Settings → Course
unfolding with_postgres
configured s a none = returns false a
configured s a (some c) =
    if not s.postgres_up
    then returns false a
    else first opens_postgres (deferred closes_postgres (with_postgres s c a))

unfoldable pub run : Startup → Accounts → Course
unfolding configured load
run s a = configured s a (load s.environment)

-- what a tick of sampleQueueDepth publishes
abbrev pub sample_queue_depth : Pipeline → List Sample
sample_queue_depth p = set_queue_depth (length p.buffer)
