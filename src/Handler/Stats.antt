-- ===== src/Handler/Stats.antt =====
-- The handlers of internal/handler/stats.go. No time before 1970 is represented: a default window
-- that would begin earlier begins there.
pub mod Windows
use go_link_shortener.Base.{
  ℕ, ◌-◌, Bool, not, Option, none, some, List, [], Bytes, codes, bytes_eq, ltb, if◌then◌else◌,
}
use go_link_shortener.Domain.Errors.{Result, ok, err}
use go_link_shortener.Domain.Stats.{Bucket, bucket_hour, valid_bucket, LinkStats, TenantOverview}
use go_link_shortener.Http.{
  Reply, json, stats_body, overview_body, respond_error, respond_validation,
}
use go_link_shortener.Store.Db.{Db}
use go_link_shortener.Store.Stats.{Sql, Window}
use go_link_shortener.Service.Stats
use go_link_shortener.Service.Stats.{StatsFaults}
use go_link_shortener.Handler.Request.{Decoder, with_id, parse_time_query}

-- seven days, in nanoseconds
abbrev pub default_stats_window : ℕ
default_stats_window = 604800000000000

-- the query parameters; an absent time is empty
pub record StatsQuery : Type 0 where
  pub from : Bytes
  pub to : Bytes
  pub bucket : Option Bytes

-- `c.DefaultQuery`: the default only when the parameter is not there
unfoldable pub bucket_of : Option Bytes → Bucket
bucket_of none = bucket_hour
bucket_of (some b) = b

answered : Result LinkStats → Reply
unfolding respond_error
answered (ok stats) = json 200 (stats_body stats)
answered (err e) = respond_error e

checked : Sql → StatsFaults → Window → Bucket → Db → Reply
unfolding answered
checked sql f w bucket db =
    if not (valid_bucket bucket)
    then respond_validation (codes "bucket must be 'hour' or 'day'")
    else if not (ltb w.from w.to)
    then respond_validation (codes "'to' must be after 'from'")
    else answered (Stats.link_stats sql f w bucket db)

-- the handler on the two times that were read
windowed : Sql → StatsFaults → ℕ → ℕ → Bucket → Option ℕ → Option ℕ → Db → Reply
unfolding checked
windowed sql f tenant id bucket none from db =
    respond_validation (codes "to must be an RFC3339 timestamp")
windowed sql f tenant id bucket (some to) none db =
    respond_validation (codes "from must be an RFC3339 timestamp")
windowed sql f tenant id bucket (some to) (some from) db =
    checked sql f (record { tenant = tenant; link = id; from = from; to = to }) bucket db

-- `to.Add(-defaultStatsWindow)`, when `to` was read
week_before : Option ℕ → ℕ
week_before none = 0
week_before (some to) = to - default_stats_window

unfoldable pub link_stats : Decoder → Sql → StatsFaults → ℕ → ℕ → Bytes → StatsQuery → Db → Reply
unfolding windowed week_before with_id parse_time_query
link_stats d sql f now tenant param q db =
    with_id d param (λ reply. reply)
      λ id.
        let to = parse_time_query d q.to now in
        windowed sql f tenant id (bucket_of q.bucket) to
          (parse_time_query d q.from (week_before to)) db

summarised : Result TenantOverview → Reply
unfolding respond_error
summarised (ok o) = json 200 (overview_body o)
summarised (err e) = respond_error e

unfoldable pub overview : Sql → Bool → ℕ → Db → Reply
unfolding summarised
overview sql fault tenant db = summarised (Stats.overview sql fault tenant db)
