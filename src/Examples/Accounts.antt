-- ===== src/Examples/Accounts.antt =====
-- Keys, the gate and the demo seed on concrete data, and the theorems applied to it.
use go_link_shortener.Base.{
  ◌≡◌, refl, true, false, none, some, [], ◌∷◌, ◌++◌, Bytes, codes, bytes_eq, arith,
}
use go_link_shortener.Domain.Errors.{ok}
use go_link_shortener.Domain.ApiKey.{ApiKey, GeneratedKey, generate_api_key}
use go_link_shortener.Domain.Tenant.{Tenant}
use go_link_shortener.Store.ApiKeys
use go_link_shortener.Store.RateLimit.{empty_bucket}
use go_link_shortener.Store.Tenants
use go_link_shortener.Service.Auth.{authenticate}
use go_link_shortener.Service.Auth.Rotation.{generate-authenticate}
use go_link_shortener.Middleware.RateLimit.{Buckets, rate_limit}
use go_link_shortener.Middleware.Gate.{Crypto, Limits, GateEnv, api_gate}
use go_link_shortener.Middleware.Gate.Entry.{IsAdmitted, api_gate-enters}
use go_link_shortener.Middleware.Auth.{api_key_auth}
use go_link_shortener.Middleware.Auth.Tokens.{IsBearerOf}
use go_link_shortener.Seed.{Accounts, SeedEnv, demo}
use go_link_shortener.Seed.Idempotence.{IsSeeded, demo-again}

-- a hash that tells these keys apart
abbrev pub crypto : Crypto
crypto = record { trim_space = λ s. s; hash = λ s. codes "h" ++ s }

abbrev secret : Bytes
secret = codes "abcdefghij"

abbrev pub a_key : ApiKey
a_key = record {
  id = 3;
  tenant_id = 2;
  name = codes "ci";
  prefix = codes "sk_live_abcdefgh";
  hash = codes "hsk_live_abcdefghij";
  created_at = 4;
  last_used_at = none;
  revoked_at = none;
}

abbrev pub bearer : Bytes
bearer = codes "Bearer sk_live_abcdefghij"

abbrev pub limits : Limits
limits = record { enabled = true; requests = 2; window = 1000 }

abbrev pub gate_env : GateEnv
gate_env = record {
  now = 5000;
  keys_fail = false;
  limiter_fails = false;
  touch_fails = false;
  touched_at = 5000;
}

abbrev pub no_buckets : Buckets
no_buckets = λ t. empty_bucket

generate-authenticate_example :
    (g : GeneratedKey) × (generate_api_key crypto.hash (some secret) ≡ ok g)
    × (k : ApiKey) × (authenticate crypto.hash false g.plaintext
          (ApiKeys.create false (record { id = 9; at = 6 }) 2 (codes "ci") g.prefix g.hash []).1
        ≡ ok k)
    × (k.tenant_id ≡ 2)
    × (authenticate crypto.hash false
          (codes "sk_live_another-key")
          (ApiKeys.create false (record { id = 9; at = 6 }) 2 (codes "ci") g.prefix g.hash []).1
        ≡ authenticate crypto.hash false (codes "sk_live_another-key") [])
unfolding bytes_eq
generate-authenticate_example =
    generate-authenticate crypto.hash secret (codes "ci") (record { id = 9; at = 6 }) 2 [] false
      (codes "sk_live_another-key") (ground arith) refl refl refl

api_gate-enters_example :
    IsBearerOf crypto.trim_space crypto.hash (a_key ∷ []) bearer a_key
    × IsAdmitted limits gate_env a_key no_buckets
        (api_gate crypto limits gate_env bearer (a_key ∷ []) no_buckets).1
unfolding api_gate api_key_auth authenticate ApiKeys.get_by_hash rate_limit
api_gate-enters_example =
    api_gate-enters crypto limits gate_env bearer (a_key ∷ []) no_buckets
      (api_gate crypto limits gate_env bearer (a_key ∷ []) no_buckets).1 a_key
      (some (record { limit = 2; remaining = 1; retry_after = none })) refl

abbrev pub seed_env : SeedEnv
seed_env = record {
  find_fails = false;
  tenant_fails = false;
  get_fails = false;
  key_fails = false;
  tenant_minted = record { id = 1; at = 10 };
  key_minted = record { id = 2; at = 11 };
}

abbrev pub nobody : Accounts
nobody = record { tenants = []; keys = [] }

abbrev demo_tenant : Tenant
demo_tenant = record { id = 1; name = codes "Demo Tenant"; created_at = 10; updated_at = 10 }

demo-again_example :
    IsSeeded crypto.hash demo_tenant (demo crypto.hash seed_env nobody).1
    × (demo crypto.hash seed_env (demo crypto.hash seed_env nobody).1
        ≡ (ok demo_tenant, (demo crypto.hash seed_env nobody).1))
unfolding demo Tenants.find_by_name Tenants.create ApiKeys.get_by_hash ApiKeys.create
demo-again_example =
    demo-again crypto.hash seed_env seed_env nobody (demo crypto.hash seed_env nobody).1 demo_tenant
      refl (record { finds = refl; gets = refl })
