-- ===== src/Store/Cache.antt =====
-- internal/repository/link_cache.go over a Redis that maps keys to values with an expiry instant.
-- A stored string is shown as what `Get` makes of it: the negative marker, the JSON of a
-- `cachedLink`, or any other text, which json.Unmarshal refuses.
pub mod Reads
use go_link_shortener.Base.{
  ℕ, ◌+◌, Bool, true, false, Option, none, some, Bytes, codes, bytes_eq, ◌++◌, ◌==◌, ltb, ℤ,
  if◌then◌else◌,
}
use go_link_shortener.Domain.Errors.{internal, Result, ok, err, ◌>>=◌}
use go_link_shortener.Domain.Link.{Link}

-- The text of a UUID: uuid.Parse reads what String writes, and refuses other texts.
pub data UuidText : Type 0 where
  of_uuid : ℕ → UuidText
  malformed : Bytes → UuidText

uuid_parse : UuidText → Result ℕ
uuid_parse (of_uuid n) = ok n
uuid_parse (malformed s) = err internal

pub record CachedLink : Type 0 where
  pub id : UuidText
  pub tenant_id : UuidText
  pub code : Bytes
  pub target_url : Bytes
  pub redirect_type : ℤ
  pub expires_at : Option ℕ
  pub max_clicks : Option ℤ
  pub click_count : ℕ

pub data Value : Type 0 where
  negative_marker : Value
  json : CachedLink → Value
  text : Bytes → Value

-- `until` is the instant at which the key is gone; a key with no TTL stays.
pub record Slot : Type 0 where
  pub value : Value
  pub until : Option ℕ

abbrev pub Redis : Type 0
Redis = Bytes → Option Slot

abbrev pub empty_redis : Redis
empty_redis key = none

unfoldable pub cache_key : Bytes → Bytes
cache_key code = codes "link:" ++ code

-- A written key; the others stay.
abbrev pub write : Bytes → Option Slot → Redis → Redis
write key slot redis k = if bytes_eq k key then slot else redis k

alive_at : Option ℕ → ℕ → Bool
alive_at none now = true
alive_at (some t) now = ltb now t

fresh : ℕ → Option Slot → Option Value
unfolding alive_at
fresh now none = none
fresh now (some s) = if alive_at s.until now then some s.value else none

-- GET key
unfoldable pub read : Redis → ℕ → Bytes → Option Value
unfolding fresh
read redis now key = fresh now (redis key)

-- SET key value EX ttl; a zero TTL means no expiry
unfoldable pub slot_for : Value → ℕ → ℕ → Option Slot
slot_for v ttl now =
    some (record { value = v; until = if ttl == 0 then none else some (now + ttl) })

unfoldable pub from_domain : Link → CachedLink
from_domain l = record {
  id = of_uuid l.id;
  tenant_id = of_uuid l.tenant_id;
  code = l.code;
  target_url = l.target_url;
  redirect_type = l.redirect_type;
  expires_at = l.expires_at;
  max_clicks = l.max_clicks;
  click_count = l.click_count;
}

-- The fields that the snapshot lacks keep Go's zero values.
unfoldable pub to_domain : CachedLink → Result Link
unfolding uuid_parse
to_domain cl = do
  id ← uuid_parse cl.id
  tenant_id ← uuid_parse cl.tenant_id
  ok (record {
    id = id;
    tenant_id = tenant_id;
    code = cl.code;
    target_url = cl.target_url;
    redirect_type = cl.redirect_type;
    expires_at = cl.expires_at;
    max_clicks = cl.max_clicks;
    click_count = cl.click_count;
    created_at = 0;
    updated_at = 0;
    deleted_at = none;
  })

-- the second part is `found`: the answer is authoritative
decode : Option Value → Result (Option Link × Bool)
unfolding to_domain
decode none = ok (none, false)
decode (some negative_marker) = ok (none, true)
decode (some (json cl)) = do link ← to_domain cl; ok (some link, true)
decode (some (text s)) = err internal

unfoldable pub get : Bool → ℕ → Bytes → Redis → Result (Option Link × Bool)
unfolding decode read cache_key
get true now code redis = err internal
get false now code redis = decode (read redis now (cache_key code))

unfoldable pub set : Bool → ℕ → ℕ → Link → Redis → Result (Unit {0}) × Redis
unfolding cache_key slot_for from_domain
set true ttl now l redis = (err internal, redis)
set false ttl now l redis =
    (ok tt, write (cache_key l.code) (slot_for (json (from_domain l)) ttl now) redis)

unfoldable pub set_negative : Bool → ℕ → ℕ → Bytes → Redis → Result (Unit {0}) × Redis
unfolding cache_key slot_for
set_negative true neg_ttl now code redis = (err internal, redis)
set_negative false neg_ttl now code redis =
    (ok tt, write (cache_key code) (slot_for negative_marker neg_ttl now) redis)

unfoldable pub invalidate : Bool → Bytes → Redis → Result (Unit {0}) × Redis
unfolding cache_key
invalidate true code redis = (err internal, redis)
invalidate false code redis = (ok tt, write (cache_key code) none redis)
