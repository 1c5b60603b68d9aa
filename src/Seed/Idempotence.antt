-- ===== src/Seed/Idempotence.antt =====
-- Running the seed again changes nothing.
use go_link_shortener.Base.{
  ℕ, ◌≡◌, refl, ap, ◌∙◌, subst, Bool, true, false, none, List, [], ◌∷◌, Bytes, bytes_eq,
  bytes_eq_refl, codes, keep, arith, Option-cases, inl, inr,
}
use go_link_shortener.Domain.Errors.{not_found, Result, ok, err}
use go_link_shortener.Domain.ApiKey.{ApiKey, prefix_of}
use go_link_shortener.Domain.Tenant.{Tenant}
use go_link_shortener.Store.Db.{Minted}
use go_link_shortener.Store.ApiKeys
use go_link_shortener.Store.ApiKeys.{has_hash}
use go_link_shortener.Store.Tenants
use go_link_shortener.Seed.{
  demo_tenant_name, demo_api_key, Accounts, SeedEnv, with_tenant, key_added, with_key, seeded, demo,
}

-- no statement fails
pub record IsUp (env : SeedEnv) : Type 0 where
  pub finds : env.find_fails ≡ false
  pub gets : env.get_fails ≡ false

-- The tenant that the accounts have under the demo name, and the key they have under its hash.
pub record IsSeeded (hash : Bytes → Bytes) (t : Tenant) (a : Accounts) : Type 0 where
  pub named : Tenants.find_by_name false demo_tenant_name a.tenants ≡ ok t
  pub key : ApiKey
  pub stored : ApiKeys.get_by_hash false (hash demo_api_key) a.keys ≡ ok key

none-keep : (ts : List Tenant) → Tenants.earliest ts ≡ none → ts ≡ []
unfolding Tenants.earliest
none-keep [] h = refl
none-keep (t ∷ ts) h = elim (Option-cases (Tenants.earliest ts)) [
  | inl e ↦ absurd (ground arith)
  | inr (u, e) ↦ absurd (ground arith)
]

find_by_name-none :
    (name : Bytes) (ts : List Tenant)
    → Tenants.find_by_name false name ts ≡ err not_found
    → keep (λ t. bytes_eq t.name name) ts ≡ []
unfolding Tenants.find_by_name
find_by_name-none name ts h = none-keep (keep (λ t. bytes_eq t.name name) ts) (ground arith)

-- A tenant that is created under a name that no tenant had is the one that is found.
create-found :
    (m : Minted) (name : Bytes) (ts ts' : List Tenant) (fault : Bool) (t : Tenant)
    → keep (λ t. bytes_eq t.name name) ts ≡ []
    → Tenants.create fault m name ts ≡ (ok t, ts')
    → Tenants.find_by_name false name ts' ≡ ok t
unfolding Tenants.create Tenants.find_by_name Tenants.earliest
create-found m name ts ts' true t h e = absurd (ground arith)
create-found m name ts ts' false t h e = ground (arith, bytes_eq_refl name)

find_fails-ok :
    (fault : Bool) (name : Bytes) (ts : List Tenant) (t : Tenant)
    → Tenants.find_by_name fault name ts ≡ ok t
    → Tenants.find_by_name false name ts ≡ ok t
unfolding Tenants.find_by_name
find_fails-ok true name ts t e = absurd (ground arith)
find_fails-ok false name ts t e = e

find_fails-none :
    (fault : Bool) (name : Bytes) (ts : List Tenant)
    → Tenants.find_by_name fault name ts ≡ err not_found
    → Tenants.find_by_name false name ts ≡ err not_found
unfolding Tenants.find_by_name
find_fails-none true name ts e = absurd (ground arith)
find_fails-none false name ts e = e

with_tenant-found :
    (env : SeedEnv) (ts ts' : List Tenant) (t : Tenant) (r : Result Tenant)
    → Tenants.find_by_name env.find_fails demo_tenant_name ts ≡ r
    → with_tenant env r ts ≡ (ok t, ts')
    → Tenants.find_by_name false demo_tenant_name ts' ≡ ok t
unfolding with_tenant
with_tenant-found env ts ts' t (err not_found) h e =
    create-found env.tenant_minted demo_tenant_name ts ts' env.tenant_fails t
      (find_by_name-none demo_tenant_name ts (find_fails-none env.find_fails demo_tenant_name ts h))
      e
with_tenant-found env ts ts' t (ok s) h e =
    let same : ts ≡ ts' = ap (λ p. p.1) e in
    subst (λ us. Tenants.find_by_name false demo_tenant_name us ≡ ok t) same
      (find_fails-ok env.find_fails demo_tenant_name ts t (h ∙ ap (λ p. p.0) e))
with_tenant-found env ts ts' t (err x) h e = absurd (ground arith)

-- The key is there, or is stored now.
key-created :
    (m : Minted) (tenant : ℕ) (name prefix hash : Bytes) (keys keys' : List ApiKey) (fault : Bool)
    (k : ApiKey)
    → ApiKeys.create fault m tenant name prefix hash keys ≡ (ok k, keys')
    → ApiKeys.get_by_hash false hash keys' ≡ ok k
unfolding ApiKeys.create ApiKeys.get_by_hash
key-created m tenant name prefix hash keys keys' true k e = absurd (ground arith)
key-created m tenant name prefix hash keys keys' false k e = ground (arith, bytes_eq_refl hash)

key_added-ok :
    (t u : Tenant) (p : Result ApiKey × List ApiKey) (keys' : List ApiKey)
    → key_added t p ≡ (ok u, keys')
    → (t ≡ u) × (k : ApiKey) × (p ≡ (ok k, keys'))
unfolding key_added
key_added-ok t u (ok k, keys) keys' e = (ground arith, k, ground arith)
key_added-ok t u (err x, keys) keys' e = absurd (ground arith)

get_fails-ok :
    (fault : Bool) (hash : Bytes) (keys : List ApiKey) (k : ApiKey)
    → ApiKeys.get_by_hash fault hash keys ≡ ok k
    → ApiKeys.get_by_hash false hash keys ≡ ok k
unfolding ApiKeys.get_by_hash
get_fails-ok true hash keys k e = absurd (ground arith)
get_fails-ok false hash keys k e = e

key-found :
    (hash : Bytes → Bytes) (env : SeedEnv) (t u : Tenant) (keys keys' : List ApiKey)
    (r : Result ApiKey)
    → ApiKeys.get_by_hash env.get_fails (hash demo_api_key) keys ≡ r
    → with_key hash env t r keys ≡ (ok u, keys')
    → (t ≡ u) × (k : ApiKey) × (ApiKeys.get_by_hash false (hash demo_api_key) keys' ≡ ok k)
unfolding with_key
key-found hash env t u keys keys' (ok k) h e = (
  ground arith,
  k,
  subst (λ ks. ApiKeys.get_by_hash false (hash demo_api_key) ks ≡ ok k) (ap (λ p. p.1) e)
      (get_fails-ok env.get_fails (hash demo_api_key) keys k h),
)
key-found hash env t u keys keys' (err not_found) h e =
    let (same, k, made) =
      key_added-ok t u
        (ApiKeys.create env.key_fails env.key_minted t.id (codes "demo-seed")
          (prefix_of demo_api_key) (hash demo_api_key) keys)
        keys' e in
    (
      same,
      k,
      key-created env.key_minted t.id (codes "demo-seed") (prefix_of demo_api_key)
          (hash demo_api_key) keys keys' env.key_fails k made,
    )
key-found hash env t u keys keys' (err x) h e = absurd (ground arith)

seeded-IsSeeded :
    (hash : Bytes → Bytes) (env : SeedEnv) (keys : List ApiKey) (p : Result Tenant × List Tenant)
    (t : Tenant) (b : Accounts)
    → ((s : Tenant) → p.0 ≡ ok s → Tenants.find_by_name false demo_tenant_name p.1 ≡ ok s)
    → seeded hash env keys p ≡ (ok t, b)
    → IsSeeded hash t b
unfolding seeded
seeded-IsSeeded hash env keys (err x, ts) t b named e = absurd (ground arith)
seeded-IsSeeded hash env keys (ok s, ts) t b named e =
    let (same, k, stored) =
      key-found hash env s t keys b.keys
        (ApiKeys.get_by_hash env.get_fails (hash demo_api_key) keys) refl (ground arith) in
    record {
      named =
          subst (λ us. Tenants.find_by_name false demo_tenant_name us ≡ ok t)
            (ap (λ q. q.1.tenants) e) (named s refl ∙ ap ok same);
      key = k;
      stored = stored;
    }

IsSeeded-again :
    (hash : Bytes → Bytes) (later : SeedEnv) (b : Accounts) (t : Tenant)
    → IsSeeded hash t b
    → IsUp later
    → demo hash later b ≡ (ok t, b)
unfolding demo seeded with_tenant with_key
IsSeeded-again hash later b t h up = rw (up.finds, h.named, up.gets, h.stored) refl

-- A run that succeeds leaves the accounts so that every later run, whatever the database would mint,
-- returns the same tenant and changes nothing, as long as its two reads work; and the demo key is in
-- the table.
pub demo-again :
    (hash : Bytes → Bytes) (env later : SeedEnv) (a b : Accounts) (t : Tenant)
    → demo hash env a ≡ (ok t, b)
    → IsUp later
    → IsSeeded hash t b × (demo hash later b ≡ (ok t, b))
unfolding demo
demo-again hash env later a b t e up =
    let found =
      seeded-IsSeeded hash env a.keys
        (with_tenant env (Tenants.find_by_name env.find_fails demo_tenant_name a.tenants) a.tenants)
        t b
        (λ s q.
          with_tenant-found env a.tenants _ s
            (Tenants.find_by_name env.find_fails demo_tenant_name a.tenants) refl (pair_eq _ q))
        e in
    (found, IsSeeded-again hash later b t found up)
  where
    pair_eq : (p : Result Tenant × List Tenant) {s : Tenant} → p.0 ≡ ok s → p ≡ (ok s, p.1)
    pair_eq p q = ap (λ r. (r, p.1)) q
