-- ===== src/Service/Stats/Overview.antt =====
-- What `Overview` of internal/service/stats.go says of a tenant's links and clicks.
use go_link_shortener.Base.{
  ℕ, ◌+◌, ◌≡◌, ◌≤◌, Bool, true, false, ◌&&◌, Option, none, some, List, [], ◌∷◌, Bytes, bytes_eq,
  ◌==◌, count, find,
}
use go_link_shortener.Domain.Errors.{internal, Result, ok, err}
use go_link_shortener.Domain.Link.{Link}
use go_link_shortener.Domain.Stats.{LabelCount, TenantOverview}
use go_link_shortener.Store.Db.{Db, has_id}
use go_link_shortener.Store.Links.{tenant_live}
use go_link_shortener.Store.Stats.Ranking.{IsTopOf}
use go_link_shortener.Service.Stats.{top_n}

-- whether the row that a click joins has the code
abbrev pub joins_code : Bytes → Option Link → Bool
joins_code code none = false
joins_code code (some r) = bytes_eq r.code code

-- the clicks of a tenant on the links with a code, deleted links included
abbrev pub clicks_under : ℕ → Db → Bytes → ℕ
clicks_under tenant db code =
    count (λ c. c.tenant_id == tenant && joins_code code (find (has_id c.link_id) db.links))
      db.clicks

abbrev pub sum_totals : List LabelCount → ℕ
sum_totals [] = 0
sum_totals (r ∷ rs) = r.total + sum_totals rs

abbrev pub Overviewed : ℕ → Db → Bool → Result TenantOverview → Type 0
Overviewed tenant db fault (ok ov) =
    (fault ≡ false)
    × (ov.total_links ≡ count (tenant_live tenant) db.links)
    × (ov.total_clicks ≡ count (λ c. c.tenant_id == tenant) db.clicks)
    × IsTopOf (clicks_under tenant db) top_n ov.top_links
    × (sum_totals ov.top_links ≤ ov.total_clicks)
Overviewed tenant db fault (err e) = (fault ≡ true) × (e ≡ internal)
