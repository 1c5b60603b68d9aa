-- ===== src/Service/Stats/Privacy.antt =====
-- A report depends on the tenant's own rows alone.
use go_link_shortener.Base.{◌≡◌, refl}
use go_link_shortener.Domain.Stats.{Bucket}
use go_link_shortener.Store.Db.{Db}
use go_link_shortener.Store.Stats.{
  Sql, Window, top_referrers, top_countries, device_breakdown, referrer_label, country_label,
  device_label,
}
use go_link_shortener.Store.Privacy.{
  LooksSame, get_by_id-same, series-same, total-same, label_query-same,
}
use go_link_shortener.Service.Stats.{StatsFaults, top_n, queried, link_stats}

pub link_stats-same :
    (sql : Sql) (f : StatsFaults) (w : Window) (bucket : Bucket) (a b : Db)
    → LooksSame w.tenant a b
    → link_stats sql f w bucket a ≡ link_stats sql f w bucket b
unfolding link_stats queried top_referrers top_countries device_breakdown
link_stats-same sql f w bucket a b same =
    rw
      (
        get_by_id-same w.tenant a b same f.ownership w.link,
        series-same w.tenant a b same sql f.series w bucket refl,
        total-same w.tenant a b same f.total w refl,
        label_query-same w.tenant a b same sql f.referrers referrer_label w top_n refl,
        label_query-same w.tenant a b same sql f.countries country_label w top_n refl,
        label_query-same w.tenant a b same sql f.devices device_label w top_n refl,
      )
      refl
