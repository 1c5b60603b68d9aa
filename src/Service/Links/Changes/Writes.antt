-- ===== src/Service/Links/Changes/Writes.antt =====
-- What `Update` and `Delete` of internal/service/link.go do to the database: nothing, or one write
-- of the repository.
use go_link_shortener.Base.{
  ℕ, Bytes, Bool, true, false, ◌≡◌, ◌∙◌, refl, Option-cases, inl, inr, find, find-holds, arith,
}
use go_link_shortener.Domain.Errors.{Result, ok, err}
use go_link_shortener.Domain.Link.{Link}
use go_link_shortener.Store.Db.{Db, is_owned}
use go_link_shortener.Store.Links
use go_link_shortener.Service.World.{World}
use go_link_shortener.Service.Links.{LinkService}
use go_link_shortener.Service.Links.Changes.Patching.{patched-SameKey}
use go_link_shortener.Service.Links.Changes.{
  UpdateLinkInput, ChangeEnv, patched, updated, write_patched, update_found, update, deleted,
  delete_found, delete,
}

get_by_id-tenant :
    (fault : Bool) (tenant id : ℕ) (db : Db) (l : Link)
    → Links.get_by_id_for_tenant fault tenant id db ≡ ok l
    → l.tenant_id ≡ tenant
unfolding Links.get_by_id_for_tenant
get_by_id-tenant true tenant id db l e = absurd (ground arith)
get_by_id-tenant false tenant id db l e = elim (Option-cases (find (is_owned tenant id) db.links)) [
  | inl none_found ↦ absurd (ground arith)
  | inr (r, found) ↦ let owned = find-holds (is_owned tenant id) db.links r found in ground arith
]

module _ (P : Db → Type 0) (s : LinkService) (env : ChangeEnv) where
  updated-db :
      (old : Bytes) (w : World) (p : Result Link × Db) → P p.1 → P (updated s env old w p).1.db
  unfolding updated
  updated-db old w (ok l, db) h = h
  updated-db old w (err e, db) h = h

  write_patched-db :
      (old : Bytes) (w : World) (r : Result Link)
      → P w.db
      → ((l : Link) → r ≡ ok l → P (Links.update env.write_fails env.db_now l w.db).1)
      → P (write_patched s env old w r).1.db
  unfolding write_patched
  write_patched-db old w (ok l) h k = updated-db old w _ (k l refl)
  write_patched-db old w (err e) h k = h

  update_found-db :
      (tenant : ℕ) (input : UpdateLinkInput) (w : World) (r : Result Link)
      → P w.db
      → ((l : Link) → r ≡ ok l → l.tenant_id ≡ tenant)
      → ((l : Link) → l.tenant_id ≡ tenant → P (Links.update env.write_fails env.db_now l w.db).1)
      → P (update_found s env tenant input w r).1.db
  unfolding update_found
  update_found-db tenant input w (ok l) h own k =
      write_patched-db l.code w (patched s env.now tenant input l) h
        λ a e. k a ((patched-SameKey s env.now tenant input l e).tenant_id ∙ own l refl)
  update_found-db tenant input w (err e) h own k = h

  -- The row that `Update` writes is one of the tenant's.
  pub update-db :
      (tenant id : ℕ) (input : UpdateLinkInput) (w : World)
      → P w.db
      → ((l : Link) → l.tenant_id ≡ tenant → P (Links.update env.write_fails env.db_now l w.db).1)
      → P (update s env tenant id input w).1.db
  unfolding update
  update-db tenant id input w h k =
      update_found-db tenant input w _ h (λ l e. get_by_id-tenant env.get_fails tenant id w.db l e)
        k

  deleted-db :
      (code : Bytes) (w : World) (p : Result (Unit {0}) × Db)
      → P p.1
      → P (deleted s env code w p).1.db
  unfolding deleted
  deleted-db code w (ok u, db) h = h
  deleted-db code w (err e, db) h = h

  delete_found-db :
      (tenant id : ℕ) (w : World) (r : Result Link)
      → P w.db
      → P (Links.soft_delete env.write_fails env.db_now tenant id w.db).1
      → P (delete_found s env tenant id w r).1.db
  unfolding delete_found
  delete_found-db tenant id w (ok l) h k = deleted-db l.code w _ k
  delete_found-db tenant id w (err e) h k = h

  pub delete-db :
      (tenant id : ℕ) (w : World)
      → P w.db
      → P (Links.soft_delete env.write_fails env.db_now tenant id w.db).1
      → P (delete s env tenant id w).1.db
  unfolding delete
  delete-db tenant id w h k = delete_found-db tenant id w _ h k
