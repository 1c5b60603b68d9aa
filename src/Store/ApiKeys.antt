-- ===== src/Store/ApiKeys.antt =====
-- The table `api_keys` (migrations/000002) and the statements of internal/repository/apikey.go. The
-- first argument of each says whether the statement fails.
use go_link_shortener.Base.{
  ℕ, Bool, true, false, ◌&&◌, ◌||◌, Option, none, some, List, [], ◌∷◌, Bytes, bytes_eq, ◌==◌, ltb,
  keep, find, change, any, if◌then◌else◌,
}
use go_link_shortener.Domain.Errors.{internal, not_found, Result, ok, err}
use go_link_shortener.Domain.ApiKey.{ApiKey}
use go_link_shortener.Store.Db.{Minted}

abbrev pub Keys : Type 0
Keys = List ApiKey

abbrev pub has_hash : Bytes → ApiKey → Bool
has_hash hash k = bytes_eq k.hash hash

-- The primary key and the unique index on the hash refuse the row.
unfoldable pub create : Bool → Minted → ℕ → Bytes → Bytes → Bytes → Keys → Result ApiKey × Keys
create true m tenant name prefix hash keys = (err internal, keys)
create false m tenant name prefix hash keys =
    let k : ApiKey = record {
      id = m.id;
      tenant_id = tenant;
      name = name;
      prefix = prefix;
      hash = hash;
      created_at = m.at;
      last_used_at = none;
      revoked_at = none;
    } in
    if any (λ r. r.id == m.id) keys || any (has_hash hash) keys
    then (err internal, keys)
    else (ok k, k ∷ keys)

abbrev pub or_not_found : Option ApiKey → Result ApiKey
or_not_found none = err not_found
or_not_found (some k) = ok k

unfoldable pub get_by_hash : Bool → Bytes → Keys → Result ApiKey
get_by_hash true hash keys = err internal
get_by_hash false hash keys = or_not_found (find (has_hash hash) keys)

-- ORDER BY created_at
unfoldable pub insert_oldest : ApiKey → Keys → Keys
insert_oldest k [] = k ∷ []
insert_oldest k (r ∷ rs) =
    let rest = insert_oldest k rs in if ltb r.created_at k.created_at then r ∷ rest else k ∷ r ∷ rs

unfoldable pub oldest_first : Keys → Keys
unfolding insert_oldest
oldest_first [] = []
oldest_first (k ∷ ks) = insert_oldest k (oldest_first ks)

unfoldable pub list_by_tenant : Bool → ℕ → Keys → Result Keys
unfolding oldest_first
list_by_tenant true tenant keys = err internal
list_by_tenant false tenant keys = ok (oldest_first (keep (λ k. k.tenant_id == tenant) keys))

unfoldable pub get_by_id_for_tenant : Bool → ℕ → ℕ → Keys → Result ApiKey
get_by_id_for_tenant true tenant id keys = err internal
get_by_id_for_tenant false tenant id keys =
    or_not_found (find (λ k. k.id == id && k.tenant_id == tenant) keys)

unfoldable pub touched : ℕ → ApiKey → ApiKey
touched now k = record k { last_used_at = some now }

unfoldable pub touch_last_used : Bool → ℕ → ℕ → Keys → Result (Unit {0}) × Keys
unfolding touched
touch_last_used true now id keys = (err internal, keys)
touch_last_used false now id keys = (ok tt, change (λ k. k.id == id) (touched now) keys)
