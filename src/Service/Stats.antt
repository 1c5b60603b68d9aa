-- ===== src/Service/Stats.antt =====
-- internal/service/stats.go. `StatsFaults` says which of the queries of one `LinkStats` fail.
pub mod Report
pub mod Overview
pub mod Privacy
use go_link_shortener.Base.{ℕ, Bool, true, false, not, List, Bytes, ltb, if◌then◌else◌}
use go_link_shortener.Domain.Errors.{validation, Result, ok, err, ◌>>=◌}
use go_link_shortener.Domain.Stats.{
  Bucket, valid_bucket, TimePoint, LabelCount, LinkStats, TenantOverview,
}
use go_link_shortener.Store.Db.{Db}
use go_link_shortener.Store.Links
use go_link_shortener.Store.Stats.{
  Sql, Window, series_for_link, total_for_link, top_referrers, top_countries, device_breakdown,
  tenant_overview,
}

abbrev pub top_n : ℕ
top_n = 10

pub record StatsFaults : Type 0 where
  pub ownership : Bool
  pub series : Bool
  pub total : Bool
  pub referrers : Bool
  pub countries : Bool
  pub devices : Bool

-- the calls of `LinkStats` after its checks of the arguments
queried : Sql → StatsFaults → Window → Bucket → Db → Result LinkStats
unfolding series_for_link total_for_link top_referrers top_countries device_breakdown
queried sql f w bucket db = do
  owned ← Links.get_by_id_for_tenant f.ownership w.tenant w.link db
  series ← series_for_link sql f.series w bucket db
  total ← total_for_link f.total w db
  referrers ← top_referrers sql f.referrers w top_n db
  countries ← top_countries sql f.countries w top_n db
  devices ← device_breakdown sql f.devices w top_n db
  ok (record {
    link_id = w.link;
    from = w.from;
    to = w.to;
    bucket = bucket;
    total_clicks = total;
    series = series;
    top_referrers = referrers;
    top_countries = countries;
    devices = devices;
  })

unfoldable pub link_stats : Sql → StatsFaults → Window → Bucket → Db → Result LinkStats
unfolding queried valid_bucket
link_stats sql f w bucket db =
    if not (valid_bucket bucket)
    then err (validation "")
    else if not (ltb w.from w.to)
    then err (validation "")
    else queried sql f w bucket db

unfoldable pub overview : Sql → Bool → ℕ → Db → Result TenantOverview
unfolding tenant_overview
overview sql fault tenant db = tenant_overview sql fault tenant top_n db
