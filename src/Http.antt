-- ===== src/Http.antt =====
-- internal/httpx/response.go and internal/handler/errors.go: answers, and the mapping of errors to
-- them.
pub mod Views
use go_link_shortener.Base.{
  ℕ, Option, none, some, List, [], ◌∷◌, ◌++◌, Bytes, codes, String, bytes_eq, ◌==◌, if◌then◌else◌,
}
use go_link_shortener.Domain.Errors.{
  Error, not_found, conflict, unauthorized, gone, code_exhausted, internal, validation,
}
use go_link_shortener.Domain.Stats.{LinkStats, TenantOverview}
use go_link_shortener.Http.Views.{LinkResponse, WebhookResponse}

abbrev pub code_unauthorized : Bytes
code_unauthorized = codes "unauthorized"

abbrev pub code_not_found : Bytes
code_not_found = codes "not_found"

abbrev pub code_validation : Bytes
code_validation = codes "validation_error"

abbrev pub code_conflict : Bytes
code_conflict = codes "conflict"

abbrev pub code_rate_limited : Bytes
code_rate_limited = codes "rate_limited"

abbrev pub code_gone : Bytes
code_gone = codes "gone"

abbrev pub code_internal : Bytes
code_internal = codes "internal_error"

-- a body, before it is written as JSON
pub data Body : Type 0 where
  error_envelope : Bytes → Bytes → Body
  link_body : LinkResponse → Body
  links_body : List LinkResponse → ℕ → Body
  webhook_body : WebhookResponse → Body
  webhooks_body : List WebhookResponse → ℕ → Body
  stats_body : LinkStats → Body
  overview_body : TenantOverview → Body
  health_body : Bytes → List (Bytes × Bytes) → Body
  no_body : Body

-- `location` is the header that a redirect sets
pub record Reply : Type 0 where
  pub status : ℕ
  pub location : Option Bytes
  pub body : Body

abbrev pub json : ℕ → Body → Reply
json status body = record { status = status; location = none; body = body }

-- AbortError and WriteError
abbrev pub failed : ℕ → Bytes → Bytes → Reply
failed status code message = json status (error_envelope code message)

unfoldable pub status_for_error : Error → ℕ × Bytes
status_for_error not_found = (404, code_not_found)
status_for_error conflict = (409, code_conflict)
status_for_error (validation m) = (400, code_validation)
status_for_error unauthorized = (401, code_unauthorized)
status_for_error gone = (410, code_gone)
status_for_error code_exhausted = (500, code_internal)
status_for_error internal = (500, code_internal)

unfoldable pub generic_message : ℕ → Bytes
generic_message status =
    if status == 400
    then codes "invalid request"
    else if status == 401
    then codes "unauthorized"
    else if status == 403
    then codes "forbidden"
    else if status == 404
    then codes "resource not found"
    else if status == 409
    then codes "resource already exists"
    else if status == 410
    then codes "resource is no longer available"
    else codes "internal server error"

-- `err.Error()` of ErrValidation, which a service wraps with a message or returns as it is
validation_text : Bytes → Bytes
unfolding bytes_eq
validation_text m =
    if bytes_eq m [] then codes "validation failed" else codes "validation failed: " ++ m

message_for : Error → ℕ → Bytes
unfolding validation_text
message_for (validation m) status = validation_text (codes m)
message_for e status = generic_message status

unfoldable pub respond_error : Error → Reply
unfolding status_for_error message_for generic_message
respond_error e =
    let (status, code) = status_for_error e in failed status code (message_for e status)

abbrev pub respond_validation : Bytes → Reply
respond_validation message = failed 400 code_validation message
