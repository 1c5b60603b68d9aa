-- ===== src/Webhook/Post.antt =====
-- `post` of internal/webhook/dispatcher.go. `hmac` is the hexadecimal HMAC-SHA256, `decimal` is
-- `strconv.FormatInt`, `uuid` the text of an id. The answer of the HTTP client is its status code, or
-- none for a transport error or a URL that makes no request.
use go_link_shortener.Base.{
  true, ℕ, ◌≡◌, ◌↔◌, refl, Bool, false, not, ◌||◌, Option, none, some, List, [], ◌∷◌, Bytes, codes,
  bytes_eq, bytes_eq_iff, bytes_eq_refl, ltb, leb, find, if◌then◌else◌,
}
use go_link_shortener.Webhook.Dispatcher.{Job}
use go_link_shortener.Webhook.Signer.{sign, verify}

pub record Header : Type 0 where
  pub key : Bytes
  pub value : Bytes

pub record Request : Type 0 where
  pub url : Bytes
  pub headers : List Header
  pub body : Bytes

abbrev pub signature_header : Bytes
signature_header = codes "X-Webhook-Signature"

abbrev pub timestamp_header : Bytes
timestamp_header = codes "X-Webhook-Timestamp"

abbrev pub event_header : Bytes
event_header = codes "X-Webhook-Event"

abbrev pub id_header : Bytes
id_header = codes "X-Webhook-Id"

-- Set of net/http's Header, for a key in canonical form: the value replaces those of the key.
unfoldable pub set_header : Bytes → Bytes → List Header → List Header
set_header k v [] = record { key = k; value = v } ∷ []
set_header k v (h ∷ hs) =
    let rest = set_header k v hs in
    if bytes_eq h.key k then record { key = k; value = v } ∷ hs else h ∷ rest

abbrev pub values : Option Header → Option Bytes
values none = none
values (some h) = some h.value

-- Get of net/http's Header
unfoldable pub get_header : Bytes → List Header → Option Bytes
get_header k hs = values (find (λ h. bytes_eq h.key k) hs)

module _ (hmac : Bytes → Bytes → Bytes) (decimal uuid : ℕ → Bytes) where
  -- the request of `post`
  unfoldable pub request : Job → Request
  unfolding set_header sign
  request j = record {
    url = j.webhook.url;
    headers = set_header id_header (uuid j.event.id) (
        set_header event_header j.event.event_type (
          set_header timestamp_header (decimal j.event.occurred_at) (
            set_header signature_header (sign hmac j.webhook.secret j.payload)
              (set_header (codes "Content-Type") (codes "application/json") []))));
    body = j.payload;
  }

-- whether `post` returns no error
unfoldable pub posted : Option ℕ → Bool
posted none = false
posted (some status) = not (ltb status 200 || leb 300 status)

-- A receiver that knows the secret and checks the signature header of a request over its body
-- accepts it; whatever the secret and the body, `Verify` accepts exactly the signature that `Sign`
-- makes of them.
pub request-verify :
    (hmac : Bytes → Bytes → Bytes) (decimal uuid : ℕ → Bytes) (j : Job)
    → (s : Bytes) × (get_header signature_header (request hmac decimal uuid j).headers ≡ some s)
      × (verify hmac j.webhook.secret (request hmac decimal uuid j).body s ≡ true)
      × ((secret body other : Bytes)
          → (verify hmac secret body other ≡ true) ↔ (sign hmac secret body ≡ other))
unfolding request set_header get_header verify bytes_eq
request-verify hmac decimal uuid j = (
  sign hmac j.webhook.secret j.payload,
  refl,
  bytes_eq_refl (sign hmac j.webhook.secret j.payload),
  λ secret body other. bytes_eq_iff (sign hmac secret body) other,
)
