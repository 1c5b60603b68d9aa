-- ===== src/Domain/Tenant.antt =====
-- internal/domain/tenant.go
use go_link_shortener.Base.{ℕ, Bytes}

pub record Tenant : Type 0 where
  pub id : ℕ
  pub name : Bytes
  pub created_at : ℕ
  pub updated_at : ℕ
