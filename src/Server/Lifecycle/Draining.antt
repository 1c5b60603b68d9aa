-- ===== src/Server/Lifecycle/Draining.antt =====
-- Which parts a run shuts down.
use go_link_shortener.Base.{
  ◌≡◌, refl, Bool, true, false, not, ◌&&◌, Option, none, some, List, [], ◌∷◌, ◌++◌, any, keep,
  arith, if◌then◌else◌,
}
use go_link_shortener.Domain.Errors.{Result, ok, err}
use go_link_shortener.Domain.Tenant.{Tenant}
use go_link_shortener.Seed.{Accounts, demo}
use go_link_shortener.Config.{Settings, DemoConfig, load}
use go_link_shortener.Server.Lifecycle.{
  opens_redis, opens_postgres, starts_pipeline, starts_dispatcher, returns, seeds_demo, Action,
  listens, stops_http, stops_pipeline, warns_pipeline, warns_dispatcher, stops_dispatcher,
  closes_redis, closes_postgres, Startup, Course, Ending, serve_failed, signalled, run, configured,
  with_postgres, seeded, with_redis, guard_demo, await, shut_down, first, deferred,
}

abbrev pub is_ending : Action → Bool
is_ending stops_http = true
is_ending stops_pipeline = true
is_ending stops_dispatcher = true
is_ending warns_pipeline = true
is_ending warns_dispatcher = true
is_ending _ = false

abbrev pub is_listening : Action → Bool
is_listening listens = true
is_listening _ = false

-- the call of Shutdown of a part, and the warning if it did not drain in time
abbrev pub stopping : Action → Action → Bool → List Action
stopping call warning drained = if drained then call ∷ [] else call ∷ warning ∷ []

-- The last actions of a run that listened.
abbrev pub endings : Startup → Ending → List Action
endings s serve_failed = []
endings s signalled =
    if s.http_stopped
    then stops_http ∷ stopping stops_pipeline warns_pipeline s.pipeline_drained
      ++ stopping stops_dispatcher warns_dispatcher s.dispatcher_drained
    else stops_http ∷ []

abbrev pub is_clean : Ending → Bool → Bool
is_clean serve_failed stopped = false
is_clean signalled stopped = stopped

pub record Ends (s : Startup) (c : Course) : Type 0 where
  pub last :
      keep is_ending c.actions ≡ (if any is_listening c.actions then endings s s.ending else [])
  pub result : c.succeeds ≡ (any is_listening c.actions && is_clean s.ending s.http_stopped)

keep-deferred :
    (x : Action) (xs : List Action)
    → is_ending x ≡ false
    → keep is_ending (xs ++ (x ∷ [])) ≡ keep is_ending xs
keep-deferred x [] h = ground arith
keep-deferred x (y ∷ xs) h = ground (arith, keep-deferred x xs)

any-deferred :
    (x : Action) (xs : List Action)
    → is_listening x ≡ false
    → any is_listening (xs ++ (x ∷ [])) ≡ any is_listening xs
any-deferred x [] h = ground arith
any-deferred x (y ∷ xs) h = ground (arith, any-deferred x xs)

module _ (s : Startup) where
  deferred-Ends :
      (x : Action) (c : Course)
      → is_ending x ≡ false
      → is_listening x ≡ false
      → Ends s c
      → Ends s (deferred x c)
  deferred-Ends x c h k e = ground (arith, keep-deferred x c.actions, any-deferred x c.actions)

  first-Ends :
      (x : Action) (c : Course)
      → is_ending x ≡ false
      → is_listening x ≡ false
      → Ends s c
      → Ends s (first x c)
  first-Ends x c h k e = ground arith

  listens-Ends : (a : Accounts) → Ends s (first listens (await s s.ending a))
  unfolding await shut_down
  listens-Ends a = go s.ending refl
    where
      go : (e : Ending) → s.ending ≡ e → Ends s (first listens (await s e a))
      go serve_failed h = ground arith
      go signalled h = ground arith

  guard_demo-Ends :
      (d : DemoConfig) (t : Option Tenant) (c : Course) → Ends s c → Ends s (guard_demo d t c)
  unfolding guard_demo
  guard_demo-Ends d none c e = e
  guard_demo-Ends d (some t) c e = ground arith

  with_redis-Ends : (c : Settings) (t : Option Tenant) (a : Accounts) → Ends s (with_redis s c t a)
  unfolding with_redis
  with_redis-Ends c t a = go s.redis_up
    where
      served : Course
      served =
          first starts_dispatcher
            (first starts_pipeline (guard_demo c.demo t (first listens (await s s.ending a))))

      go :
          (up : Bool)
          → Ends s
              (if not up then returns false a else first opens_redis (deferred closes_redis served))
      go false = ground arith
      go true = first-Ends opens_redis (deferred closes_redis served) refl refl (
          deferred-Ends closes_redis served refl refl (
            first-Ends starts_dispatcher _ refl refl (
              first-Ends starts_pipeline _ refl refl
                (guard_demo-Ends c.demo t _ (listens-Ends a)))))

  seeded-Ends : (c : Settings) (p : Result Tenant × Accounts) → Ends s (seeded s c p)
  unfolding seeded
  seeded-Ends c (ok t, a) = first-Ends seeds_demo _ refl refl (with_redis-Ends c (some t) a)
  seeded-Ends c (err e, a) = first-Ends seeds_demo _ refl refl (with_redis-Ends c none a)

  with_postgres-Ends : (c : Settings) (a : Accounts) → Ends s (with_postgres s c a)
  unfolding with_postgres
  with_postgres-Ends c a =
      ground (arith, seeded-Ends c (demo s.hash s.seed_env a), with_redis-Ends c none a)

  configured-Ends : (a : Accounts) (o : Option Settings) → Ends s (configured s a o)
  unfolding configured
  configured-Ends a none = ground arith
  configured-Ends a (some c) = go s.postgres_up
    where
      go :
          (up : Bool)
          → Ends s (
              if not up
              then returns false a
              else first opens_postgres (deferred closes_postgres (with_postgres s c a)))
      go false = ground arith
      go true =
          first-Ends opens_postgres _ refl refl
            (deferred-Ends closes_postgres _ refl refl (with_postgres-Ends c a))

-- A run that never listened calls no Shutdown. One that did calls that of the HTTP server, then that of
-- the pipeline, then that of the dispatcher, if a signal ended it and the HTTP server stopped in time,
-- and warns after each of the last two that returned an error; with an error of the HTTP server,
-- before or while it stops, neither the pipeline nor the dispatcher is shut down. The run returns no
-- error exactly if it called all three, also when the pipeline or the dispatcher did not drain in time.
pub run-Ends : (s : Startup) (a : Accounts) → Ends s (run s a)
unfolding run
run-Ends s a = configured-Ends s a (load s.environment)
