-- ===== src/Handler/Stats/Windows.antt =====
-- The statistics of a window that was read depend on the tenant's own rows alone.
use go_link_shortener.Base.{ℕ, ◌≡◌, refl, Option, none, some, Bytes}
use go_link_shortener.Domain.Stats.{Bucket}
use go_link_shortener.Store.Db.{Db}
use go_link_shortener.Store.Stats.{Sql, Window}
use go_link_shortener.Store.Privacy.{LooksSame}
use go_link_shortener.Service.Stats.{StatsFaults}
use go_link_shortener.Service.Stats.Privacy.{link_stats-same}
use go_link_shortener.Handler.Request.{with_id-same, Decoder}
use go_link_shortener.Handler.Stats.{StatsQuery, checked, windowed, link_stats}

windowed-same :
    (sql : Sql) (f : StatsFaults) (tenant id : ℕ) (bucket : Bucket) (to from : Option ℕ) (a b : Db)
    → LooksSame tenant a b
    → windowed sql f tenant id bucket to from a ≡ windowed sql f tenant id bucket to from b
unfolding windowed checked
windowed-same sql f tenant id bucket none from a b same = refl
windowed-same sql f tenant id bucket (some to) none a b same = refl
windowed-same sql f tenant id bucket (some to) (some from) a b same =
    let w : Window = record { tenant = tenant; link = id; from = from; to = to } in
    rw (link_stats-same sql f w bucket a b same) refl

pub report-same :
    (d : Decoder) (sql : Sql) (f : StatsFaults) (now tenant : ℕ) (param : Bytes) (q : StatsQuery)
    (a b : Db)
    → LooksSame tenant a b
    → link_stats d sql f now tenant param q a ≡ link_stats d sql f now tenant param q b
unfolding link_stats
report-same d sql f now tenant param q a b same =
    with_id-same d param _ _ λ id. windowed-same sql f tenant id _ _ _ a b same
