-- ===== src/Metrics.antt =====
-- internal/metrics/metrics.go: which collectors each method touches. The collectors are those of
-- Prometheus; here a method is the list of the calls that it makes on them.
use go_link_shortener.Base.{ℕ, List, [], ◌∷◌, Bytes}

pub data Collector : Type 0 where
  http_duration : Collector
  http_requests : Collector
  redirects : Collector
  cache_hits : Collector
  cache_misses : Collector
  analytics_enqueued : Collector
  analytics_dropped : Collector
  analytics_flushed : Collector
  analytics_queue_depth : Collector

-- `Observe`, `Inc`, `Add` and `Set`, with the values of the labels
pub data Sample : Type 0 where
  observes : Collector → List Bytes → ℕ → Sample
  incs : Collector → List Bytes → Sample
  adds : Collector → ℕ → Sample
  sets : Collector → ℕ → Sample

abbrev pub observe_http : Bytes → Bytes → Bytes → ℕ → List Sample
observe_http method route status dur =
    observes http_duration (method ∷ route ∷ status ∷ []) dur
    ∷ incs http_requests (method ∷ route ∷ status ∷ [])
    ∷ []

abbrev pub observe_redirect : Bytes → List Sample
observe_redirect result = incs redirects (result ∷ []) ∷ []

abbrev pub observe_cache_hit : List Sample
observe_cache_hit = incs cache_hits [] ∷ []

abbrev pub observe_cache_miss : List Sample
observe_cache_miss = incs cache_misses [] ∷ []

abbrev pub inc_enqueued : List Sample
inc_enqueued = incs analytics_enqueued [] ∷ []

abbrev pub inc_dropped : List Sample
inc_dropped = incs analytics_dropped [] ∷ []

abbrev pub inc_flushed : ℕ → List Sample
inc_flushed n = adds analytics_flushed n ∷ []

abbrev pub set_queue_depth : ℕ → List Sample
set_queue_depth n = sets analytics_queue_depth n ∷ []
