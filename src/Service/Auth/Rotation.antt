-- ===== src/Service/Auth/Rotation.antt =====
-- A key that was generated and stored authenticates, and disturbs no other key.
use go_link_shortener.Base.{
  ℕ, ◌≡◌, ◌≤◌, refl, ap, ◌∙◌, Bool, true, false, none, some, [], ◌∷◌, ◌++◌, Bytes, bytes_eq,
  bytes_eq_refl, length, take, has_prefix, ◌==◌, any, arith,
}
use go_link_shortener.Domain.Errors.{ok}
use go_link_shortener.Domain.Link.{is_nil}
use go_link_shortener.Domain.ApiKey.{
  ApiKey, GeneratedKey, generate_api_key, key_prefix, prefix_stored_len, revoked, valid_key_format,
}
use go_link_shortener.Store.Db.{Minted}
use go_link_shortener.Store.ApiKeys
use go_link_shortener.Store.ApiKeys.{Keys, has_hash, get_by_hash}
use go_link_shortener.Service.Auth.{found, authenticate}

has_prefix-append : (p s : Bytes) → has_prefix (p ++ s) p ≡ true
unfolding has_prefix
has_prefix-append [] s = refl
has_prefix-append (c ∷ p) s = ground (arith, has_prefix-append p s)

generated-valid :
    (secret : Bytes) → 9 ≤ length secret → valid_key_format (key_prefix ++ secret) ≡ true
unfolding valid_key_format has_prefix
generated-valid secret long = ground arith

-- the row that `Create` stores
abbrev stored : Minted → ℕ → Bytes → GeneratedKey → ApiKey
stored m tenant name g = record {
  id = m.id;
  tenant_id = tenant;
  name = name;
  prefix = g.prefix;
  hash = g.hash;
  created_at = m.at;
  last_used_at = none;
  revoked_at = none;
}

module _ (hash : Bytes → Bytes) (m : Minted) (tenant : ℕ) (name : Bytes) (g : GeneratedKey)
    (keys : Keys) (fresh_id : any (λ r. r.id == m.id) keys ≡ false)
    (fresh_hash : any (has_hash g.hash) keys ≡ false) where
  create-stored :
      (ApiKeys.create false m tenant name g.prefix g.hash keys).1 ≡ stored m tenant name g ∷ keys
  unfolding ApiKeys.create
  create-stored = rw (fresh_id, fresh_hash) refl

  stored-authenticates :
      (plaintext : Bytes)
      → valid_key_format plaintext ≡ true
      → g.hash ≡ hash plaintext
      → authenticate hash false plaintext (stored m tenant name g ∷ keys)
        ≡ ok (stored m tenant name g)
  unfolding authenticate get_by_hash found revoked is_nil
  stored-authenticates plaintext valid same =
      ground (arith, bytes_eq_refl g.hash, bytes_eq_refl (hash plaintext))

  stored-others :
      (fault : Bool) (token : Bytes)
      → bytes_eq g.hash (hash token) ≡ false
      → authenticate hash fault token (stored m tenant name g ∷ keys)
        ≡ authenticate hash fault token keys
  unfolding authenticate get_by_hash
  stored-others true token other = refl
  stored-others false token other = rw other refl

-- `GenerateAPIKey` on a secret of more than 8 letters, stored for a tenant under a fresh id and hash:
-- the plaintext then authenticates as that tenant, and a token of another hash authenticates as
-- before, or fails as before.
pub generate-authenticate :
    (hash : Bytes → Bytes) (secret name : Bytes) (m : Minted) (tenant : ℕ) (keys : Keys)
    (fault : Bool) (token : Bytes)
    → 9 ≤ length secret
    → any (λ r. r.id == m.id) keys ≡ false
    → any (has_hash (hash (key_prefix ++ secret))) keys ≡ false
    → bytes_eq (hash (key_prefix ++ secret)) (hash token) ≡ false
    → (g : GeneratedKey) × (generate_api_key hash (some secret) ≡ ok g)
      × (k : ApiKey) × (authenticate hash false g.plaintext
            (ApiKeys.create false m tenant name g.prefix g.hash keys).1
          ≡ ok k)
      × (k.tenant_id ≡ tenant)
      × (authenticate hash fault token (ApiKeys.create false m tenant name g.prefix g.hash keys).1
          ≡ authenticate hash fault token keys)
unfolding generate_api_key
generate-authenticate hash secret name m tenant keys fault token long fresh_id fresh_hash other = (
  g,
  refl,
  stored m tenant name g,
  ap (authenticate hash false g.plaintext) made
      ∙ stored-authenticates hash m tenant name g keys fresh_id fresh_hash g.plaintext
          (generated-valid secret long) refl,
  refl,
  ap (authenticate hash fault token) made
      ∙ stored-others hash m tenant name g keys fresh_id fresh_hash fault token other,
)
  where
    g : GeneratedKey
    g = record {
      plaintext = key_prefix ++ secret;
      prefix = take prefix_stored_len (key_prefix ++ secret);
      hash = hash (key_prefix ++ secret);
    }

    made :
        (ApiKeys.create false m tenant name g.prefix g.hash keys).1 ≡ stored m tenant name g ∷ keys
    made = create-stored hash m tenant name g keys fresh_id fresh_hash
