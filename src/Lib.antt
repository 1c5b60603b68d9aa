-- ===== src/Lib.antt =====
-- go-link-shortener: a multi-tenant link shortener. A tenant creates short links over an HTTP API; a
-- visitor's redirect is answered from a Redis cache in front of PostgreSQL, and its click goes
-- through an in-memory pipeline into the database; webhooks report new links and clicks.
--
-- Parts, and the files that model them:
--   Base        numbers, integers, lists and byte strings that all files share
--   Domain      internal/domain: links, API keys, tenants, webhooks, statistics, errors (Error, Result)
--   Shortcode   internal/shortcode: Generate by rejection sampling, ValidAlias
--   Store       internal/repository: Db, Links and Clicks are the tables `links` and `clicks` with the
--               statements of link.go and RecordBatch, Stats the queries of click.go; ApiKeys, Tenants
--               and Webhooks are apikey.go, tenant.go and webhook.go; Cache is link_cache.go;
--               RateLimit is the Lua script of ratelimit.go. Integrity, Counting and History keep the
--               tables sound, Isolation and Privacy are about tenants.
--   Service     internal/service: Redirect is Resolve; Links is Create, Get and List, and
--               Links/Changes is Update and Delete; Auth is Authenticate, Stats LinkStats and Overview,
--               Webhooks the webhook service, Janitor one sweep of janitor.go. World is the state that
--               redirects and links share.
--   Analytics   internal/analytics: Pipeline is the channel, the workers and the shutdown; Flush is
--               what happens to one batch; Enrich and UserAgent are what is stored of a click.
--   Webhook     internal/webhook: Dispatcher and Backoff are dispatcher.go with its queues, fan-out and
--               delivery, Post is the request of one post, Notifier is notifier.go, Signer is
--               signer.go. Loops is the concurrent part: the callers of Dispatch, the resolver, the
--               senders, the timers of the retries and Shutdown (Effects what a move does to the jobs,
--               Flow where they are, Bounds, Attempts, Shutdown, Progress, and Sequential what the moves
--               of one goroutine are together).
--   Seed        internal/seed/seed.go
--   Config      internal/config: Load and validate
--   Http        internal/httpx and internal/handler/errors.go: answers and the status of each error;
--               Views are the JSON shapes of links and webhooks
--   Metrics     internal/metrics: the collectors that each method touches
--   Middleware  internal/middleware: Auth is auth.go, RateLimit is ratelimit.go, and Gate puts them
--               in the order of cmd/server/main.go; Context is context.go, and Observability is
--               observability.go with the chain of the global middleware
--   Handler     internal/handler: Redirect, Links, Stats, Webhooks and Health are the files of these names;
--               Request is what they read of a request, Fields the body of a PATCH
--   Server      cmd/server/main.go: the group /api/v1 behind its gate, and the redirect route;
--               Process adds the pipeline and the janitor; Lifecycle is `run`, from the configuration
--               to the shutdown, as the sequence of its calls
--   System      the calls of the services in any order on one database and one cache
--   Examples    runs on concrete data
--
-- Correspondence. A Go function that reads or writes shared state is a function from the state to a
-- result and the state; a call that can fail outside the program (PostgreSQL, Redis, HTTP) takes a
-- Boolean that says whether it does. A (value, error) pair is a Result. UUIDs and times are numbers,
-- strings are lists of bytes, Go's int is ℤ where it can be negative. A handler is a function from
-- what it reads of the request to its answer, whose body is a value before it is written as JSON. The
-- goroutines of the pipeline and of the dispatcher are step relations (Analytics.Pipeline.Step,
-- Webhook.Loops.Step), in which a select is a move of its own. Service calls and requests are atomic in
-- System and Server; Store.History takes the statements of the tables one by one, and
-- Service.Redirect.Races takes the two halves of a redirect's backfill apart. The demo janitor's sweep,
-- which evicts nothing from the cache, is not a call of System. The write of last_used_at, which
-- Authenticate starts in a goroutine of its own, is done with its request. A GROUP BY is a fold over
-- the rows, and ORDER BY an insertion sort. Where Go ranges over a map, the model takes the order of
-- first clicks; Analytics.Flush.Ordering is about the other orders.
--
-- Fuel: Generate reads random buffers until it has enough letters, and takes the number of buffers as
-- fuel; Webhook's `pursue` takes the number of deliveries, and one more than the retries left is
-- enough. All other functions are structural.
--
-- Parameters: url.Parse, the UUIDs and times that the database makes, random bytes and their base64
-- text, net.ParseIP, SHA-256 and HMAC, strings.ToLower and TrimSpace, the geo resolver, strconv,
-- time.Parse and time.ParseDuration, uuid.Parse, encoding/json, date_trunc and the database's order of
-- strings, the answer of the HTTP client, rand.Int64N, gin.Recovery.
--
-- Not modelled: gin's routing of paths, the registration of the Prometheus collectors, the slog
-- logger, tickers and deadlines, migrations, connections, test helpers and the web console: I/O, glue,
-- and parts that no other part of the model relies on.
pub mod Base
pub mod Domain
pub mod Shortcode
pub mod Store
pub mod Service
pub mod Analytics
pub mod Webhook
pub mod Seed
pub mod Config
pub mod Http
pub mod Metrics
pub mod Middleware
pub mod Handler
pub mod Server
pub mod System
pub mod Examples
