-- ===== src/Store/Tenants.antt =====
-- The table `tenants` (migrations/000002) and the statements of internal/repository/tenant.go.
use go_link_shortener.Base.{
  ℕ, Bool, true, false, Option, none, some, List, [], ◌∷◌, Bytes, bytes_eq, ◌==◌, ltb, keep, find,
  any, if◌then◌else◌,
}
use go_link_shortener.Domain.Errors.{internal, not_found, Result, ok, err}
use go_link_shortener.Domain.Tenant.{Tenant}
use go_link_shortener.Store.Db.{Minted}

unfoldable pub create : Bool → Minted → Bytes → List Tenant → Result Tenant × List Tenant
create true m name tenants = (err internal, tenants)
create false m name tenants =
    let t : Tenant = record { id = m.id; name = name; created_at = m.at; updated_at = m.at } in
    if any (λ r. r.id == m.id) tenants then (err internal, tenants) else (ok t, t ∷ tenants)

abbrev pub or_not_found : Option Tenant → Result Tenant
or_not_found none = err not_found
or_not_found (some t) = ok t

unfoldable pub get_by_id : Bool → ℕ → List Tenant → Result Tenant
get_by_id true id tenants = err internal
get_by_id false id tenants = or_not_found (find (λ t. t.id == id) tenants)

-- ORDER BY created_at LIMIT 1
unfoldable pub earliest : List Tenant → Option Tenant
earliest [] = none
earliest (t ∷ ts) = elim (earliest ts) [
  | none ↦ some t
  | some u ↦ if ltb u.created_at t.created_at then some u else some t
]

unfoldable pub find_by_name : Bool → Bytes → List Tenant → Result Tenant
unfolding earliest
find_by_name true name tenants = err internal
find_by_name false name tenants = or_not_found (earliest (keep (λ t. bytes_eq t.name name) tenants))
