-- ===== src/Service/Stats/Report.antt =====
-- What a report of `LinkStats` says of the clicks of its window.
use go_link_shortener.Base.{
  ℕ, ◌≡◌, ◌≤◌, ◌<◌, ◌⊎◌, Bool, true, false, ◌||◌, map, Bytes, bytes_eq, ◌==◌, keep, count, any,
}
use go_link_shortener.Domain.Errors.{not_found, internal, validation, Result, ok, err}
use go_link_shortener.Domain.Stats.{Bucket, valid_bucket, LinkStats}
use go_link_shortener.Domain.Link.{Link}
use go_link_shortener.Store.Db.{Click, Db, is_owned}
use go_link_shortener.Store.Stats.{
  group_times, Sql, Window, in_window, top_referrers, top_countries, referrer_label, country_label,
  device_label, top_labels,
}
use go_link_shortener.Store.Stats.Groups.{total_at, sum_points, Ascending}
use go_link_shortener.Store.Stats.Ranking.{IsTopOf}
use go_link_shortener.Service.Stats.{StatsFaults, top_n}

-- the clicks of the window under a label
abbrev pub labelled : Window → Db → (Click → Bytes) → Bytes → ℕ
labelled w db label l = count (λ m. bytes_eq m l) (map label (keep (in_window w) db.clicks))

-- the clicks of the window whose time is truncated to `t`
abbrev pub clicks_at : Sql → Window → Bucket → Db → ℕ → ℕ
clicks_at sql w bucket db t =
    count (λ u. u == t)
      (map (λ c. sql.date_trunc bucket c.occurred_at) (keep (in_window w) db.clicks))

abbrev pub IsReport : Sql → Window → Bucket → Db → LinkStats → Type 0
IsReport sql w bucket db r =
    (r.link_id ≡ w.link)
    × (r.total_clicks ≡ count (in_window w) db.clicks)
    × (sum_points r.series ≡ r.total_clicks)
    × Ascending r.series
    × ((t : ℕ) → total_at t r.series ≡ clicks_at sql w bucket db t)
    × IsTopOf (labelled w db referrer_label) top_n r.top_referrers
    × IsTopOf (labelled w db country_label) top_n r.top_countries
    × IsTopOf (labelled w db device_label) top_n r.devices

abbrev pub any_fails : StatsFaults → Bool
any_fails f = f.ownership || f.series || f.total || f.referrers || f.countries || f.devices

-- what `LinkStats` answers, and when
abbrev pub Reported : Sql → StatsFaults → Window → Bucket → Db → Result LinkStats → Type 0
Reported sql f w bucket db (ok r) =
    (valid_bucket bucket ≡ true)
    × (w.from < w.to)
    × (any (is_owned w.tenant w.link) db.links ≡ true)
    × (any_fails f ≡ false)
    × IsReport sql w bucket db r
Reported sql f w bucket db (err (validation m)) = (valid_bucket bucket ≡ false) ⊎ (w.to ≤ w.from)
Reported sql f w bucket db (err not_found) = any (is_owned w.tenant w.link) db.links ≡ false
Reported sql f w bucket db (err internal) = any_fails f ≡ true
Reported sql f w bucket db (err e) = ⊥

module _ (sql : Sql) (w : Window) (bucket : Bucket) (db : Db) where
  report : LinkStats
  report =
      let kept = keep (in_window w) db.clicks in
      record {
        link_id = w.link;
        from = w.from;
        to = w.to;
        bucket = bucket;
        total_clicks = count (in_window w) db.clicks;
        series = group_times (map (λ c. sql.date_trunc bucket c.occurred_at) kept);
        top_referrers = top_labels sql.collate top_n (map referrer_label kept);
        top_countries = top_labels sql.collate top_n (map country_label kept);
        devices = top_labels sql.collate top_n (map device_label kept);
      }
