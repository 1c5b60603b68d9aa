-- ===== src/Domain/Errors.antt =====
-- internal/domain/errors.go: the sentinel errors. Errors that wrap none of them (a failed
-- statement, a failed Redis command) are `internal`; a validation error carries its message.
use go_link_shortener.Base.{String, Bool, true, false}

pub data Error : Type 0 where
  not_found conflict unauthorized gone code_exhausted internal : Error
  validation : String → Error

pub data Result {ℓ} (A : Type ℓ) : Type ℓ where
  ok : A → Result A
  err : Error → Result A

-- `if bad { return e }`
abbrev pub reject_if : Bool → Error → Result (Unit {0})
reject_if true e = err e
reject_if false e = ok tt

-- `if err != nil { return err }` between two calls
infixl 5 ◌>>=◌ ◌>>◌
abbrev pub ◌>>=◌ {ℓ κ} : {A : Type ℓ} → {B : Type κ} → Result A → (A → Result B) → Result B
err failure >>= next = err failure
ok value >>= next = next value

abbrev pub ◌>>◌ {ℓ} : {A : Type ℓ} → Result (Unit {0}) → Result A → Result A
check >> next = check >>= λ done. next
