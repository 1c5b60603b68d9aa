-- ===== src/Store/Stats.antt =====
-- The queries of internal/repository/click.go. `date_trunc` and the database's order of strings
-- (`collate`) are parameters. GROUP BY ... ORDER BY is a fold that keeps its groups in order.
pub mod Groups
pub mod Ranking
use go_link_shortener.Base.{
  ℕ, ◌+◌, Bool, true, false, ◌&&◌, ◌||◌, Option, none, some, List, [], ◌∷◌, map, Bytes, codes,
  bytes_eq, ◌==◌, ltb, leb, keep, find, count, take, if◌then◌else◌,
}
use go_link_shortener.Domain.Errors.{internal, Result, ok, err}
use go_link_shortener.Domain.Link.{Link}
use go_link_shortener.Domain.Stats.{Bucket, TimePoint, LabelCount, TenantOverview}
use go_link_shortener.Store.Db.{Click, Db, has_id, is_live}
use go_link_shortener.Store.Links.{tenant_live}

-- the part of PostgreSQL that the queries call
pub record Sql : Type 0 where
  pub date_trunc : Bucket → ℕ → ℕ
  pub collate : Bytes → Bytes → Bool

-- `tenant_id = $1 AND link_id = $2 AND occurred_at >= $3 AND occurred_at < $4`
pub record Window : Type 0 where
  pub tenant : ℕ
  pub link : ℕ
  pub from : ℕ
  pub to : ℕ

abbrev pub in_window : Window → Click → Bool
in_window w c =
    c.tenant_id == w.tenant
    && c.link_id == w.link
    && leb w.from c.occurred_at
    && ltb c.occurred_at w.to

-- one more row of the group of `t`, the groups in the order of their times
unfoldable pub add_point : ℕ → List TimePoint → List TimePoint
add_point t [] = record { time = t; total = 1 } ∷ []
add_point t (p ∷ ps) =
    let rest = add_point t ps in
    if p.time == t
    then record p { total = p.total + 1 } ∷ ps
    else if ltb t p.time
    then record { time = t; total = 1 } ∷ p ∷ ps
    else p ∷ rest

unfoldable pub group_times : List ℕ → List TimePoint
unfolding add_point
group_times [] = []
group_times (t ∷ ts) = add_point t (group_times ts)

unfoldable pub series_for_link : Sql → Bool → Window → Bucket → Db → Result (List TimePoint)
unfolding group_times
series_for_link sql true w bucket db = err internal
series_for_link sql false w bucket db =
    ok (group_times (map (λ c. sql.date_trunc bucket c.occurred_at) (keep (in_window w) db.clicks)))

unfoldable pub total_for_link : Bool → Window → Db → Result ℕ
total_for_link true w db = err internal
total_for_link false w db = ok (count (in_window w) db.clicks)

-- one more row of the group of a label
unfoldable pub add_label : Bytes → List LabelCount → List LabelCount
add_label label [] = record { label = label; total = 1 } ∷ []
add_label label (r ∷ rs) =
    let rest = add_label label rs in
    if bytes_eq r.label label then record r { total = r.total + 1 } ∷ rs else r ∷ rest

unfoldable pub group_labels : List Bytes → List LabelCount
unfolding add_label
group_labels [] = []
group_labels (l ∷ ls) = add_label l (group_labels ls)

-- `ORDER BY n DESC, label`
abbrev pub ranks_before : (Bytes → Bytes → Bool) → LabelCount → LabelCount → Bool
ranks_before collate a b = ltb b.total a.total || (a.total == b.total && collate a.label b.label)

unfoldable pub insert_ranked :
    (Bytes → Bytes → Bool) → LabelCount → List LabelCount → List LabelCount
insert_ranked collate a [] = a ∷ []
insert_ranked collate a (r ∷ rs) =
    let rest = insert_ranked collate a rs in
    if ranks_before collate a r then a ∷ r ∷ rs else r ∷ rest

unfoldable pub ranked : (Bytes → Bytes → Bool) → List LabelCount → List LabelCount
unfolding insert_ranked
ranked collate [] = []
ranked collate (r ∷ rs) = insert_ranked collate r (ranked collate rs)

abbrev pub top_labels : (Bytes → Bytes → Bool) → ℕ → List Bytes → List LabelCount
top_labels collate limit labels = take limit (ranked collate (group_labels labels))

-- `COALESCE(NULLIF(column, ''), fallback)`; the columns are NOT NULL
unfoldable pub shown : Bytes → Bytes → Bytes
shown fallback [] = fallback
shown fallback (c ∷ cs) = c ∷ cs

unfoldable pub label_query :
    Sql → Bool → (Click → Bytes) → Window → ℕ → Db → Result (List LabelCount)
unfolding ranked group_labels
label_query sql true label_expr w limit db = err internal
label_query sql false label_expr w limit db =
    ok (top_labels sql.collate limit (map label_expr (keep (in_window w) db.clicks)))

unfoldable pub referrer_label : Click → Bytes
unfolding shown
referrer_label c = shown (codes "(direct)") c.referrer

unfoldable pub country_label : Click → Bytes
unfolding shown
country_label c = shown (codes "(unknown)") c.country

unfoldable pub device_label : Click → Bytes
unfolding shown
device_label c = shown (codes "unknown") c.device

unfoldable pub top_referrers : Sql → Bool → Window → ℕ → Db → Result (List LabelCount)
unfolding label_query referrer_label
top_referrers sql fault w limit db = label_query sql fault referrer_label w limit db

unfoldable pub top_countries : Sql → Bool → Window → ℕ → Db → Result (List LabelCount)
unfolding label_query country_label
top_countries sql fault w limit db = label_query sql fault country_label w limit db

unfoldable pub device_breakdown : Sql → Bool → Window → ℕ → Db → Result (List LabelCount)
unfolding label_query device_label
device_breakdown sql fault w limit db = label_query sql fault device_label w limit db

-- `JOIN links l ON l.id = c.link_id`: the codes of a tenant's clicks
unfoldable pub clicked_codes : ℕ → List Link → List Click → List Bytes
clicked_codes tenant links [] = []
clicked_codes tenant links (c ∷ cs) =
    let rest = clicked_codes tenant links cs in
    if c.tenant_id == tenant
    then elim (find (has_id c.link_id) links) [ none ↦ rest | some l ↦ l.code ∷ rest ]
    else rest

unfoldable pub tenant_overview : Sql → Bool → ℕ → ℕ → Db → Result TenantOverview
unfolding ranked group_labels clicked_codes
tenant_overview sql true tenant top_n db = err internal
tenant_overview sql false tenant top_n db = ok (record {
  total_links = count (tenant_live tenant) db.links;
  total_clicks = count (λ c. c.tenant_id == tenant) db.clicks;
  top_links = top_labels sql.collate top_n (clicked_codes tenant db.links db.clicks);
})
