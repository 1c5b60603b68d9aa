-- ===== src/Seed.antt =====
-- internal/seed/seed.go: the demo tenant and its key. `hash` is `domain.HashAPIKey`.
pub mod Idempotence
use go_link_shortener.Base.{ℕ, Bool, List, Bytes, codes}
use go_link_shortener.Domain.Errors.{Error, not_found, Result, ok, err}
use go_link_shortener.Domain.ApiKey.{ApiKey, prefix_of}
use go_link_shortener.Domain.Tenant.{Tenant}
use go_link_shortener.Store.Db.{Minted}
use go_link_shortener.Store.ApiKeys
use go_link_shortener.Store.Tenants

abbrev pub demo_tenant_name : Bytes
demo_tenant_name = codes "Demo Tenant"

abbrev pub demo_api_key : Bytes
demo_api_key = codes "sk_live_demo-seed-key"

pub record Accounts : Type 0 where
  pub tenants : List Tenant
  pub keys : List ApiKey

-- What one run meets: failing statements, and what the database mints.
pub record SeedEnv : Type 0 where
  pub find_fails : Bool
  pub tenant_fails : Bool
  pub get_fails : Bool
  pub key_fails : Bool
  pub tenant_minted : Minted
  pub key_minted : Minted

with_tenant : SeedEnv → Result Tenant → List Tenant → Result Tenant × List Tenant
with_tenant env (err not_found) tenants =
    Tenants.create env.tenant_fails env.tenant_minted demo_tenant_name tenants
with_tenant env r tenants = (r, tenants)

key_added : Tenant → Result ApiKey × List ApiKey → Result Tenant × List ApiKey
key_added t (ok k, keys) = (ok t, keys)
key_added t (err e, keys) = (err e, keys)

with_key :
    (Bytes → Bytes) → SeedEnv → Tenant → Result ApiKey → List ApiKey → Result Tenant × List ApiKey
unfolding key_added
with_key hash env t (ok k) keys = (ok t, keys)
with_key hash env t (err not_found) keys = key_added t (
    ApiKeys.create env.key_fails env.key_minted t.id (codes "demo-seed") (prefix_of demo_api_key)
      (hash demo_api_key) keys)
with_key hash env t (err e) keys = (err e, keys)

seeded :
    (Bytes → Bytes) → SeedEnv → List ApiKey → Result Tenant × List Tenant → Result Tenant × Accounts
unfolding with_key
seeded hash env keys (err e, tenants) = (err e, record { tenants = tenants; keys = keys })
seeded hash env keys (ok t, tenants) =
    let (r, keys') =
      with_key hash env t (ApiKeys.get_by_hash env.get_fails (hash demo_api_key) keys) keys in
    (r, record { tenants = tenants; keys = keys' })

unfoldable pub demo : (Bytes → Bytes) → SeedEnv → Accounts → Result Tenant × Accounts
unfolding with_tenant seeded
demo hash env a =
    seeded hash env a.keys
      (with_tenant env (Tenants.find_by_name env.find_fails demo_tenant_name a.tenants) a.tenants)
