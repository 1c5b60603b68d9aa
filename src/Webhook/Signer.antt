-- ===== src/Webhook/Signer.antt =====
-- internal/webhook/signer.go. `hmac` is the hexadecimal HMAC-SHA256.
use go_link_shortener.Base.{Bool, ◌++◌, Bytes, codes, bytes_eq}

unfoldable pub sign : (Bytes → Bytes → Bytes) → Bytes → Bytes → Bytes
sign hmac secret payload = codes "sha256=" ++ hmac secret payload

unfoldable pub verify : (Bytes → Bytes → Bytes) → Bytes → Bytes → Bytes → Bool
unfolding sign bytes_eq
verify hmac secret payload signature = bytes_eq (sign hmac secret payload) signature
