-- ===== src/Examples/Background.antt =====
-- The pipeline, the webhooks, the rate limiter and the configuration on concrete data, and the
-- theorems applied to it.
use go_link_shortener.Analytics.Pipeline.Storage.{flush_all, accepted-stored}
use go_link_shortener.Examples.Data.{wiring, a_flush, cold}
use go_link_shortener.Base.{
  ℕ, suc, ◌+◌, ◌≤◌, ◌<◌, ◌≡◌, refl, true, none, some, [], ◌∷◌, ◌++◌, map, count, all, codes, ◌==◌,
  arith,
}
use go_link_shortener.Store.Db.{Click}
use go_link_shortener.Store.RateLimit.{empty_bucket}
use go_link_shortener.Store.RateLimit.Window.{replay, within, Ascending, replay-limit}
use go_link_shortener.Analytics.Enrich.{ClickEvent, Enricher, v4_prefix, to4, hash_ip, enrich}
use go_link_shortener.Analytics.Enrich.Masking.{hash_ip-SameNetwork}
use go_link_shortener.Analytics.Pipeline.{
  Pipeline, started, check_quit, send, flush_batch, collect, resume, leave, checks, sends, receives,
  exits, closes, Steps, done, next,
}
use go_link_shortener.Analytics.Pipeline.Conservation.{all_accepted}
use go_link_shortener.Analytics.Pipeline.Bounds.{IsBounded, started-IsBounded}
use go_link_shortener.Analytics.Pipeline.Drain.{
  IsClosed, has_exited, left_behind, oldest, late_send-lost,
}
use go_link_shortener.Config.{
  Environment, read_settings, load, problems, is_empty, get_env, get_parsed, set_value,
}
use go_link_shortener.Config.Validation.{IsValid, load-IsValid}

abbrev enricher_v4 : Enricher
enricher_v4 = record {
  trim_space = λ s. s;
  to_lower = λ s. s;
  parse_ip = λ s. some (v4_prefix ++ (10 ∷ 0 ∷ 7 ∷ s));
  sha256_hex = λ s. s;
  country = λ ip. none;
}

hash_ip-SameNetwork_example :
    hash_ip enricher_v4 (1 ∷ []) (codes "salt") ≡ hash_ip enricher_v4 (2 ∷ []) (codes "salt")
unfolding to4
hash_ip-SameNetwork_example =
    hash_ip-SameNetwork enricher_v4 (1 ∷ []) (2 ∷ []) (v4_prefix ++ (10 ∷ 0 ∷ 7 ∷ 1 ∷ []))
      (v4_prefix ++ (10 ∷ 0 ∷ 7 ∷ 2 ∷ [])) (codes "salt") refl refl refl

abbrev event : ClickEvent
event = record {
  link_id = 7;
  tenant_id = 1;
  code = codes "hello";
  occurred_at = 20;
  referrer = [];
  user_agent = codes "firefox";
  ip = 9 ∷ [];
}

abbrev stored : ClickEvent → Click
stored = enrich enricher_v4 (codes "salt")

-- An event is accepted and taken by the worker, then the pipeline shuts down.
abbrev p0 : Pipeline
p0 = started 2 1 5

abbrev p1 : Pipeline
p1 = (check_quit event p0).1

abbrev p2 : Pipeline
p2 = (send event [] p1).1

abbrev p3 : Pipeline
p3 = record p2 { quit = true }

abbrev p4 : Pipeline
p4 = resume [] [] (collect [] (stored event) (record p3 { buffer = [] }))

abbrev p5 : Pipeline
p5 = leave [] [] (flush_batch (stored event ∷ []) p4)

accepting : Steps stored p0 p3
unfolding started check_quit send
accepting =
    next p0 p1 p3 (checks p0 event)
      (next p1 p2 p3 (sends p1 event [] [] refl) (next p2 p3 p3 (closes p2) (done p3)))

draining : Steps stored p3 p5
unfolding started check_quit send collect
draining =
    next p3 p4 p5 (receives p3 event [] [] [] [] refl refl)
      (next p4 p5 p5 (exits p4 [] [] (stored event ∷ []) refl refl refl) (done p5))

started-IsBounded_example : IsBounded 2 5 p3
started-IsBounded_example = started-IsBounded stored 2 1 5 p3 refl accepting

p3-IsClosed : IsClosed p3
unfolding started check_quit send
p3-IsClosed = record { closed = refl; unchecked = refl; drained = λ h. absurd (ground arith) }

accepted-stored_example :
    count (λ c. c.link_id == 7) (flush_all wiring (λ k. a_flush) 0 p5.handed cold).db.clicks
    ≡ count (λ c. c.link_id == 7) cold.db.clicks
      + count (λ c. c.link_id == 7) (map stored (all_accepted stored accepting))
unfolding flush_batch enrich collect send check_quit started
accepted-stored_example =
    accepted-stored stored (λ c. c.link_id == 7) 2 1 5 accepting wiring (λ k. a_flush) cold
      p3-IsClosed draining refl refl (λ k. refl) refl

late_send-lost_example :
    Steps stored (started 2 1 5) (left_behind event 2 5)
    × ((left_behind event 2 5).checked ≡ event ∷ [])
    × (all has_exited (left_behind event 2 5).workers ≡ true)
    × ((send event [] (left_behind event 2 5)).0 ≡ true)
    × ((send event [] (left_behind event 2 5)).1.enqueued ≡ 1)
    × (oldest (send event [] (left_behind event 2 5)).1.buffer ≡ some event)
    × ((send event [] (left_behind event 2 5)).1.handed ≡ [])
late_send-lost_example =
    late_send-lost stored event 2 5 refl (done (send event [] (left_behind event 2 5)).1)

abbrev pub environment : Environment
environment = record {
  lookup = λ key. none;
  atoi = λ s. none;
  parse_int32 = λ s. none;
  parse_bool = λ s. none;
  parse_duration = λ s. none;
}

load-IsValid_example : IsValid (read_settings environment)
unfolding load problems is_empty read_settings get_env get_parsed set_value
load-IsValid_example = load-IsValid environment (read_settings environment) refl

fair : (n : ℕ) → 0 < suc n
fair n = omega arith

replay-limit_example :
    count (within 90 100) (replay 100 2 (10 ∷ 50 ∷ 100 ∷ 111 ∷ 151 ∷ []) (empty_bucket, [])).1 ≤ 2
unfolding Ascending
replay-limit_example =
    replay-limit 100 2 (10 ∷ 50 ∷ 100 ∷ 111 ∷ 151 ∷ []) 90
      (ground arith, (ground arith, (ground arith, (ground arith, (ground arith, tt)))))
