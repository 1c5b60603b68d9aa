-- ===== src/Middleware/Context.antt =====
-- internal/middleware/context.go. The values of a gin context are a function of the key.
use go_link_shortener.Base.{ℕ, ◌≡◌, refl, Option, none, some, Bytes, codes, bytes_eq, if◌then◌else◌}
use go_link_shortener.Domain.ApiKey.{ApiKey}

-- what is stored under a key: an id, a string, or a value of another type
pub data Value : Type 0 where
  uuid : ℕ → Value
  string : Bytes → Value
  other : Value

abbrev pub Values : Type 0
Values = Bytes → Option Value

abbrev pub ctx_key_tenant_id : Bytes
ctx_key_tenant_id = codes "tenant_id"

abbrev pub ctx_key_api_key_id : Bytes
ctx_key_api_key_id = codes "api_key_id"

abbrev pub ctx_key_request_id : Bytes
ctx_key_request_id = codes "request_id"

-- Set of gin's Context
abbrev pub set_value : Bytes → Value → Values → Values
set_value key v values k = if bytes_eq k key then some v else values k

unfoldable pub set_auth : ApiKey → Values → Values
set_auth k values =
    set_value ctx_key_api_key_id (uuid k.id) (set_value ctx_key_tenant_id (uuid k.tenant_id) values)

-- the type assertion to uuid.UUID
abbrev pub uuid_value : Option Value → Option ℕ
uuid_value (some (uuid n)) = some n
uuid_value _ = none

abbrev pub string_value : Option Value → Bytes
string_value (some (string s)) = s
string_value _ = codes ""

unfoldable pub tenant_id : Values → Option ℕ
tenant_id values = uuid_value (values ctx_key_tenant_id)

-- uuid.Nil is 0
unfoldable pub must_tenant_id : Values → ℕ
unfolding tenant_id
must_tenant_id values = elim (tenant_id values) [ none ↦ 0 | some n ↦ n ]

unfoldable pub api_key_id : Values → Option ℕ
api_key_id values = uuid_value (values ctx_key_api_key_id)

unfoldable pub get_request_id : Values → Bytes
get_request_id values = string_value (values ctx_key_request_id)

-- After setAuth the accessors give the tenant and the id of the key; the request id stays.
pub set_auth-accessors :
    (k : ApiKey) (values : Values)
    → (tenant_id (set_auth k values) ≡ some k.tenant_id)
      × (must_tenant_id (set_auth k values) ≡ k.tenant_id)
      × (api_key_id (set_auth k values) ≡ some k.id)
      × (get_request_id (set_auth k values) ≡ get_request_id values)
unfolding set_auth tenant_id must_tenant_id api_key_id get_request_id bytes_eq
set_auth-accessors k values = (refl, refl, refl, refl)
