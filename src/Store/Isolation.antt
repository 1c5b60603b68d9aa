-- ===== src/Store/Isolation.antt =====
-- Tenant isolation in internal/repository/link.go: what a tenant's statements leave of the rows of
-- the other tenants.
use go_link_shortener.Base.{
  ℕ, ◌≡◌, refl, Bool, true, false, not, List, [], ◌∷◌, ◌==◌, arith, keep, change, find, ℤ,
}
use go_link_shortener.Domain.Link.{Link}
use go_link_shortener.Store.Db.{Db, Minted, is_owned}
use go_link_shortener.Store.Links.{
  create, inserted, update, overwritten, soft_delete, deleted, purge_expired, is_purgeable,
  get_by_id_for_tenant, list_by_tenant, tenant_live,
}

-- The rows that a tenant can see.
abbrev pub rows_of : ℕ → Db → List Link
rows_of tenant db = keep (λ r. r.tenant_id == tenant) db.links

module _ (a b : ℕ) (distinct : (a == b) ≡ false) where
  rows_of-change :
      (id : ℕ) (f : Link → Link) (rs : List Link)
      → ((r : Link) → (f r).tenant_id ≡ r.tenant_id)
      → keep (λ r. r.tenant_id == b) (change (is_owned a id) f rs) ≡ keep (λ r. r.tenant_id == b) rs
  rows_of-change id f [] same = refl
  rows_of-change id f (r ∷ rs) same = ground (arith, same r, rows_of-change id f rs same)

  rows_of-purge :
      (cutoff : ℕ) (rs : List Link)
      → keep (λ r. r.tenant_id == b) (keep (λ r. not (is_purgeable a cutoff r)) rs)
        ≡ keep (λ r. r.tenant_id == b) rs
  rows_of-purge cutoff [] = refl
  rows_of-purge cutoff (r ∷ rs) = ground (arith, rows_of-purge cutoff rs)

-- No statement of tenant `a`, whatever its arguments, changes a row of another tenant `b`.
pub other_rows_kept :
    (a b : ℕ) (fault : Bool) (now id cutoff : ℕ) (m : Minted) (l : Link) (db : Db)
    → (a == b) ≡ false
    → l.tenant_id ≡ a
    → (rows_of b (create fault m l db).1 ≡ rows_of b db)
      × (rows_of b (update fault now l db).1 ≡ rows_of b db)
      × (rows_of b (soft_delete fault now a id db).1 ≡ rows_of b db)
      × (rows_of b (purge_expired fault a cutoff db).1 ≡ rows_of b db)
unfolding create inserted update overwritten soft_delete deleted purge_expired
other_rows_kept a b true now id cutoff m l db d own = (refl, refl, refl, refl)
other_rows_kept a b false now id cutoff m l db d own = (
  ground arith,
  ground (arith, rows_of-change a b d l.id (overwritten now l) db.links (λ r. refl)),
  ground (arith, rows_of-change a b d id (deleted now) db.links (λ r. refl)),
  rows_of-purge a b d cutoff db.links,
)

keep-keep :
    (tenant : ℕ) (p : Link → Bool) (rs : List Link)
    → ((r : Link) → p r ≡ true → (r.tenant_id == tenant) ≡ true)
    → keep p (keep (λ r. r.tenant_id == tenant) rs) ≡ keep p rs
keep-keep tenant p [] h = refl
keep-keep tenant p (r ∷ rs) h = ground (arith, h r, keep-keep tenant p rs h)

find-keep_tenant :
    (tenant id : ℕ) (rs : List Link)
    → find (is_owned tenant id) (keep (λ r. r.tenant_id == tenant) rs)
      ≡ find (is_owned tenant id) rs
find-keep_tenant tenant id [] = refl
find-keep_tenant tenant id (r ∷ rs) = ground (arith, find-keep_tenant tenant id rs)

-- What a tenant reads by id or in a list depends on its own rows alone.
pub reads_own_rows :
    (tenant id : ℕ) (fault : Bool) (limit offset : ℤ) (a b : Db)
    → rows_of tenant a ≡ rows_of tenant b
    → (get_by_id_for_tenant fault tenant id a ≡ get_by_id_for_tenant fault tenant id b)
      × (list_by_tenant fault tenant limit offset a ≡ list_by_tenant fault tenant limit offset b)
unfolding get_by_id_for_tenant list_by_tenant
reads_own_rows tenant id true limit offset a b h = (refl, refl)
reads_own_rows tenant id false limit offset a b h = (
  rw (← find-keep_tenant tenant id a.links, ← find-keep_tenant tenant id b.links, h),
  rw (
    ← keep-keep tenant (tenant_live tenant) a.links (λ r k. ground arith),
    ← keep-keep tenant (tenant_live tenant) b.links (λ r k. ground arith),
    h,
  ),
)
