-- ===== src/Handler/Request.antt =====
-- What the handlers of internal/handler read of a request: `uuid.Parse`, `strconv.Atoi`, `time.Parse`
-- and encoding/json are parameters.
use go_link_shortener.Base.{
  inl, inr, arith, Option-cases, ◌≡◌, ℕ, Option, none, some, List, [], ◌∷◌, Bytes, codes, ℤ,
  bytes_eq, ◌==◌, if◌then◌else◌,
}
use go_link_shortener.Domain.Webhook.{EventType}
use go_link_shortener.Http.{Reply, respond_validation}
use go_link_shortener.Handler.Fields.{RawFields, Json}

pub record CreateLinkRequest : Type 0 where
  pub url : Bytes
  pub custom_alias : Bytes
  pub redirect_type : ℤ
  pub expires_at : Option ℕ
  pub max_clicks : Option ℤ

pub record CreateWebhookRequest : Type 0 where
  pub url : Bytes
  pub events : List EventType

pub record Decoder : Type 0 where
  pub json : Json
  pub bind_link : Bytes → Option CreateLinkRequest
  pub bind_webhook : Bytes → Option CreateWebhookRequest
  pub bind_fields : Bytes → Option RawFields
  pub parse_uuid : Bytes → Option ℕ
  pub parse_time : Bytes → Option ℕ
  pub atoi : Bytes → Option ℤ

-- `parseID`, and the handler behind it
unfoldable pub with_id {ℓ} : {A : Type ℓ} → Decoder → Bytes → (Reply → A) → (ℕ → A) → A
with_id d param refused go = elim (d.parse_uuid param) [
  | none ↦ refused (respond_validation (codes "id must be a valid UUID"))
  | some id ↦ go id
]

-- the value of an integer that can be read, or the default
or_default : ℤ → Option ℤ → ℤ
or_default default none = default
or_default default (some n) = n

unfoldable pub atoi_default : Decoder → Bytes → ℤ → ℤ
unfolding or_default
atoi_default d s default = if bytes_eq s [] then default else or_default default (d.atoi s)

-- `parseTimeQuery`: none when the parameter is present and cannot be read
unfoldable pub parse_time_query : Decoder → Bytes → ℕ → Option ℕ
parse_time_query d raw default = if bytes_eq raw [] then some default else d.parse_time raw

-- `strings.TrimRight(baseURL, "/")`
unfoldable pub trim_slashes : Bytes → Bytes
trim_slashes [] = []
trim_slashes (c ∷ s) =
    let rest = trim_slashes s in
    if c == 47 then (elim rest [ [] ↦ [] | r ∷ rs ↦ c ∷ r ∷ rs ]) else c ∷ rest

-- Handlers that agree on every id agree on every parameter.
pub with_id-same :
    (d : Decoder) (param : Bytes) (f g : ℕ → Reply)
    → ((id : ℕ) → f id ≡ g id)
    → with_id d param (λ reply. reply) f ≡ with_id d param (λ reply. reply) g
unfolding with_id
with_id-same d param f g h = elim (Option-cases (d.parse_uuid param)) [
  | inl bad ↦ ground (arith, bad)
  | inr (id, good) ↦ ground (arith, good, h id)
]

-- What holds of the refusal and for every id holds of the handler.
pub with_id-holds {ℓ} :
    {A : Type ℓ} (Q : A → Type 0) (d : Decoder) (param : Bytes) (refused : Reply → A) (go : ℕ → A)
    → ((reply : Reply) → Q (refused reply))
    → ((id : ℕ) → Q (go id))
    → Q (with_id d param refused go)
unfolding with_id
with_id-holds Q d param refused go kept each = elim (Option-cases (d.parse_uuid param)) [
  | inl bad ↦ rw (bad, with_id) (kept _)
  | inr (id, good) ↦ rw (good, with_id) (each id)
]
