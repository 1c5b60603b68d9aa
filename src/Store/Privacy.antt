-- ===== src/Store/Privacy.antt =====
-- The queries of a tenant do not depend on the rows of another.
use go_link_shortener.Base.{
  ℕ, ◌≡◌, refl, ap, sym, ◌∙◌, Bool, true, false, none, [], Bytes, keep, find, count, ◌==◌, arith,
  pos, keep-keep, count-keep, find-keep, ℤ,
}
use go_link_shortener.Domain.Link.{Link}
use go_link_shortener.Domain.Stats.{Bucket}
use go_link_shortener.Store.Db.{Click, Db, is_owned}
use go_link_shortener.Store.Links.{
  update, soft_delete, tenant_live, get_by_id_for_tenant, list_by_tenant, or_not_found,
}
use go_link_shortener.Store.Isolation.{other_rows_kept}
use go_link_shortener.Store.Stats.{
  Sql, Window, in_window, series_for_link, total_for_link, label_query,
}

-- Two databases hold the same rows of a tenant, live or deleted.
pub record LooksSame (tenant : ℕ) (a b : Db) : Type 0 where
  pub links : keep (λ r. r.tenant_id == tenant) a.links ≡ keep (λ r. r.tenant_id == tenant) b.links
  pub clicks :
      keep (λ c. c.tenant_id == tenant) a.clicks ≡ keep (λ c. c.tenant_id == tenant) b.clicks

module _ (tenant : ℕ) (a b : Db) (same : LooksSame tenant a b) where
  pub find-owned : (id : ℕ) → find (is_owned tenant id) a.links ≡ find (is_owned tenant id) b.links
  find-owned id =
      sym
        (find-keep (λ r. r.tenant_id == tenant) (is_owned tenant id) (λ r h. ground arith) a.links)
      ∙ ap (find (is_owned tenant id)) same.links
      ∙ find-keep (λ r. r.tenant_id == tenant) (is_owned tenant id) (λ r h. ground arith) b.links

  pub keep-live : keep (tenant_live tenant) a.links ≡ keep (tenant_live tenant) b.links
  keep-live =
      sym
        (keep-keep (λ r. r.tenant_id == tenant) (tenant_live tenant) (λ r h. ground arith) a.links)
      ∙ ap (keep (tenant_live tenant)) same.links
      ∙ keep-keep (λ r. r.tenant_id == tenant) (tenant_live tenant) (λ r h. ground arith) b.links

  keep-window :
      (w : Window) → w.tenant ≡ tenant → keep (in_window w) a.clicks ≡ keep (in_window w) b.clicks
  keep-window w mine =
      sym (keep-keep (λ c. c.tenant_id == tenant) (in_window w) (λ c h. ground arith) a.clicks)
      ∙ ap (keep (in_window w)) same.clicks
      ∙ keep-keep (λ c. c.tenant_id == tenant) (in_window w) (λ c h. ground arith) b.clicks

  count-window :
      (w : Window) → w.tenant ≡ tenant → count (in_window w) a.clicks ≡ count (in_window w) b.clicks
  count-window w mine =
      sym (count-keep (λ c. c.tenant_id == tenant) (in_window w) (λ c h. ground arith) a.clicks)
      ∙ ap (count (in_window w)) same.clicks
      ∙ count-keep (λ c. c.tenant_id == tenant) (in_window w) (λ c h. ground arith) b.clicks

  pub get_by_id-same :
      (fault : Bool) (id : ℕ)
      → get_by_id_for_tenant fault tenant id a ≡ get_by_id_for_tenant fault tenant id b
  unfolding get_by_id_for_tenant
  get_by_id-same true id = refl
  get_by_id-same false id = ap or_not_found (find-owned id)

  pub list_by_tenant-same :
      (fault : Bool) (limit offset : ℤ)
      → list_by_tenant fault tenant limit offset a ≡ list_by_tenant fault tenant limit offset b
  unfolding list_by_tenant
  list_by_tenant-same true limit offset = refl
  list_by_tenant-same false limit offset = rw keep-live refl

  pub series-same :
      (sql : Sql) (fault : Bool) (w : Window) (bucket : Bucket)
      → w.tenant ≡ tenant
      → series_for_link sql fault w bucket a ≡ series_for_link sql fault w bucket b
  unfolding series_for_link
  series-same sql true w bucket mine = refl
  series-same sql false w bucket mine = rw (keep-window w mine) refl

  pub total-same :
      (fault : Bool) (w : Window)
      → w.tenant ≡ tenant
      → total_for_link fault w a ≡ total_for_link fault w b
  unfolding total_for_link
  total-same true w mine = refl
  total-same false w mine = rw (count-window w mine) refl

  pub label_query-same :
      (sql : Sql) (fault : Bool) (label : Click → Bytes) (w : Window) (limit : ℕ)
      → w.tenant ≡ tenant
      → label_query sql fault label w limit a ≡ label_query sql fault label w limit b
  unfolding label_query
  label_query-same sql true label w limit mine = refl
  label_query-same sql false label w limit mine = rw (keep-window w mine) refl

-- some link of a tenant
blank : ℕ → Link
blank tenant = record {
  id = 0;
  tenant_id = tenant;
  code = [];
  target_url = [];
  redirect_type = pos 302;
  expires_at = none;
  max_clicks = none;
  click_count = 0;
  created_at = 0;
  updated_at = 0;
  deleted_at = none;
}

module _ (t k : ℕ) (distinct : (k == t) ≡ false) where
  clicks-update :
      (fault : Bool) (now : ℕ) (l : Link) (db : Db) → (update fault now l db).1.clicks ≡ db.clicks
  unfolding update
  clicks-update true now l db = refl
  clicks-update false now l db = ground arith

  pub update-LooksSame :
      (fault : Bool) (now : ℕ) (l : Link) (db : Db)
      → l.tenant_id ≡ k
      → LooksSame t (update fault now l db).1 db
  update-LooksSame fault now l db own = record {
    links = (other_rows_kept k t fault now 0 0 (record { id = 0; at = 0 }) l db distinct own).1;
    clicks = ap (keep (λ c. c.tenant_id == t)) (clicks-update fault now l db);
  }

  clicks-soft_delete :
      (fault : Bool) (now id : ℕ) (db : Db) → (soft_delete fault now k id db).1.clicks ≡ db.clicks
  unfolding soft_delete
  clicks-soft_delete true now id db = refl
  clicks-soft_delete false now id db = ground arith

  pub soft_delete-LooksSame :
      (fault : Bool) (now id : ℕ) (db : Db) → LooksSame t (soft_delete fault now k id db).1 db
  unfolding blank
  soft_delete-LooksSame fault now id db = record {
    links =
        (other_rows_kept k t fault now id 0 (record { id = 0; at = 0 }) (blank k) db distinct
          refl).2;
    clicks = ap (keep (λ c. c.tenant_id == t)) (clicks-soft_delete fault now id db);
  }
