-- ===== src/Server/Lifecycle/Discipline.antt =====
-- The connections that a run opens are closed.
use go_link_shortener.Base.{
  ◌≡◌, refl, Bool, true, false, Option, none, some, List, [], ◌∷◌, ◌++◌, arith, not, if◌then◌else◌,
}
use go_link_shortener.Domain.Errors.{Result, ok, err}
use go_link_shortener.Domain.Tenant.{Tenant}
use go_link_shortener.Seed.{Accounts, demo}
use go_link_shortener.Config.{DemoConfig, Settings, load}
use go_link_shortener.Server.Lifecycle.{
  deferred, returns, first, Course, Action, opens_postgres, migrates, seeds_demo, opens_redis,
  starts_dispatcher, starts_pipeline, caps_demo_links, starts_janitor, listens, stops_http,
  stops_pipeline, warns_pipeline, warns_dispatcher, stops_dispatcher, closes_redis, closes_postgres,
  Startup, Ending, serve_failed, signalled, run, configured, with_postgres, seeded, with_redis,
  guard_demo, await, shut_down,
}

-- which of the two connections are open
pub data Open : Type 0 where
  none_open : Open
  postgres_open : Open
  both_open : Open

-- The independent check: an action that a state of the connections does not allow has no result.
abbrev pub allowed : Open → Action → Option Open
allowed none_open opens_postgres = some postgres_open
allowed postgres_open closes_postgres = some none_open
allowed postgres_open migrates = some postgres_open
allowed postgres_open seeds_demo = some postgres_open
allowed postgres_open opens_redis = some both_open
allowed both_open closes_redis = some postgres_open
allowed both_open starts_dispatcher = some both_open
allowed both_open starts_pipeline = some both_open
allowed both_open (caps_demo_links t ttl) = some both_open
allowed both_open (starts_janitor t) = some both_open
allowed both_open listens = some both_open
allowed both_open stops_http = some both_open
allowed both_open stops_pipeline = some both_open
allowed both_open stops_dispatcher = some both_open
allowed both_open warns_pipeline = some both_open
allowed both_open warns_dispatcher = some both_open
allowed _ _ = none

abbrev pub replay : Option Open → List Action → Option Open
replay none xs = none
replay (some o) [] = some o
replay (some o) (x ∷ xs) = replay (allowed o x) xs

replay-append :
    (o : Option Open) (xs ys : List Action) → replay o (xs ++ ys) ≡ replay (replay o xs) ys
replay-append none xs ys = refl
replay-append (some o) [] ys = refl
replay-append (some o) (x ∷ xs) ys = replay-append (allowed o x) xs ys

replay-await :
    (s : Startup) (e : Ending) (a : Accounts)
    → replay (some both_open) (await s e a).actions ≡ some both_open
unfolding await shut_down
replay-await s serve_failed a = refl
replay-await s signalled a = ground arith

replay-guard_demo :
    (c : DemoConfig) (t : Option Tenant) (rest : Course)
    → replay (some both_open) rest.actions ≡ some both_open
    → replay (some both_open) (guard_demo c t rest).actions ≡ some both_open
unfolding guard_demo
replay-guard_demo c none rest h = h
replay-guard_demo c (some t) rest h = ground arith

replay-with_redis :
    (s : Startup) (c : Settings) (t : Option Tenant) (a : Accounts)
    → replay (some postgres_open) (with_redis s c t a).actions ≡ some postgres_open
unfolding with_redis
replay-with_redis s c t a = go s.redis_up
  where
    served : Course
    served = guard_demo c.demo t (first listens (await s s.ending a))

    go :
        (up : Bool)
        → replay
            (some postgres_open)
            (if not up
              then returns false a
              else first opens_redis (
                  deferred closes_redis
                    (first starts_dispatcher (first starts_pipeline served)))).actions
          ≡ some postgres_open
    go false = refl
    go true =
        rw
          (
            replay-append (some both_open) served.actions (closes_redis ∷ []),
            replay-guard_demo c.demo t (first listens (await s s.ending a))
                (replay-await s s.ending a),
          )
          refl

replay-seeded :
    (s : Startup) (c : Settings) (p : Result Tenant × Accounts)
    → replay (some postgres_open) (seeded s c p).actions ≡ some postgres_open
unfolding seeded
replay-seeded s c (ok t, a) = replay-with_redis s c (some t) a
replay-seeded s c (err e, a) = replay-with_redis s c none a

replay-with_postgres :
    (s : Startup) (c : Settings) (a : Accounts)
    → replay (some postgres_open) (with_postgres s c a).actions ≡ some postgres_open
unfolding with_postgres
replay-with_postgres s c a =
    ground (arith, replay-seeded s c (demo s.hash s.seed_env a), replay-with_redis s c none a)

replay-configured :
    (s : Startup) (a : Accounts) (o : Option Settings)
    → replay (some none_open) (configured s a o).actions ≡ some none_open
unfolding configured
replay-configured s a none = refl
replay-configured s a (some c) = ground (
  arith,
  replay-append (some postgres_open) (with_postgres s c a).actions (closes_postgres ∷ []),
  replay-with_postgres s c a,
)

-- On every path through `run`, errors included, each connection that is opened is closed once, Redis
-- before PostgreSQL, and nothing that needs a connection is done before it is opened or after it is
-- closed: migrations and the seed need PostgreSQL, the rest both.
pub run-replay :
    (s : Startup) (a : Accounts) → replay (some none_open) (run s a).actions ≡ some none_open
unfolding run
run-replay s a = replay-configured s a (load s.environment)
