-- ===== src/Handler/Fields.antt =====
-- `buildUpdateInput` of internal/handler/link.go. The map of raw fields is an association list; what
-- encoding/json makes of a raw value is a parameter.
pub mod Patch
use go_link_shortener.Base.{
  ℕ, Bool, true, false, Option, none, some, List, [], ◌∷◌, Bytes, codes, bytes_eq, ℤ, if◌then◌else◌,
}
use go_link_shortener.Service.Links.Changes.{UpdateLinkInput}

abbrev pub RawFields : Type 0
RawFields = List (Bytes × Bytes)

-- `json.Unmarshal` into a string, an int, an int64 and a time.Time, and `strings.TrimSpace`
pub record Json : Type 0 where
  pub as_string : Bytes → Option Bytes
  pub as_int : Bytes → Option ℤ
  pub as_int64 : Bytes → Option ℤ
  pub as_time : Bytes → Option ℕ
  pub trim_space : Bytes → Bytes

-- what a reader of fields gives: a message, or a value
pub data Parsed {ℓ} (A : Type ℓ) : Type ℓ where
  malformed : Bytes → Parsed A
  parsed : A → Parsed A

infixl 5 ◌>>=◌
abbrev pub ◌>>=◌ {ℓ κ} : {A : Type ℓ} → {B : Type κ} → Parsed A → (A → Parsed B) → Parsed B
malformed message >>= next = malformed message
parsed value >>= next = next value

-- `fields[key]`
unfoldable pub lookup : Bytes → RawFields → Option Bytes
lookup key [] = none
lookup key ((k, raw) ∷ rest) = if bytes_eq k key then some raw else lookup key rest

unfoldable pub is_json_null : Json → Bytes → Bool
is_json_null j raw = bytes_eq (j.trim_space raw) (codes "null")

-- a value that was read, or the message
read_as {ℓ} : {A : Type ℓ} → Bytes → Option A → Parsed (Option A)
read_as message none = malformed message
read_as message (some a) = parsed (some a)

-- a field that is left alone when it is absent
field {ℓ} : {A : Type ℓ} → Bytes → (Bytes → Option A) → Option Bytes → Parsed (Option A)
unfolding read_as
field message read none = parsed none
field message read (some raw) = read_as message (read raw)

-- `ClearX`, and the value of a field that is not cleared
clearing {ℓ} : {A : Type ℓ} → Parsed (Option A) → Parsed (Bool × Option A)
clearing (malformed message) = malformed message
clearing (parsed a) = parsed (false, a)

-- a field that a JSON null clears
nullable {ℓ} :
    {A : Type ℓ} → Json → Bytes → (Bytes → Option A) → Option Bytes → Parsed (Bool × Option A)
unfolding is_json_null read_as clearing
nullable j message read none = parsed (false, none)
nullable j message read (some raw) =
    if is_json_null j raw then parsed (true, none) else clearing (read_as message (read raw))

unfoldable pub build_update_input : Json → RawFields → Parsed UpdateLinkInput
unfolding field nullable lookup
build_update_input j fields = do
  url ← field (codes "url must be a string") j.as_string (lookup (codes "url") fields)
  redirect_type ←
      field (codes "redirect_type must be an integer") j.as_int
        (lookup (codes "redirect_type") fields)
  expires_at ←
      nullable j (codes "expires_at must be an RFC3339 timestamp or null") j.as_time
        (lookup (codes "expires_at") fields)
  max_clicks ←
      nullable j (codes "max_clicks must be an integer or null") j.as_int64
        (lookup (codes "max_clicks") fields)
  parsed (record {
    target_url = url;
    redirect_type = redirect_type;
    expires_at = expires_at.1;
    clear_expires_at = expires_at.0;
    max_clicks = max_clicks.1;
    clear_max_clicks = max_clicks.0;
  })
