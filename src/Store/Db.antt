-- ===== src/Store/Db.antt =====
-- The tables `links` and `clicks` of migrations/000003 and 000004, and their rows' tests. A table
-- is a list of rows, newest first.
use go_link_shortener.Base.{ℕ, Bool, ◌&&◌, Option, none, some, List, Bytes, bytes_eq, ◌==◌, ltb}
use go_link_shortener.Domain.Link.{Link, is_nil}

-- internal/domain/click.go
pub record Click : Type 0 where
  pub link_id : ℕ
  pub tenant_id : ℕ
  pub occurred_at : ℕ
  pub referrer : Bytes
  pub user_agent : Bytes
  pub browser : Bytes
  pub os : Bytes
  pub device : Bytes
  pub country : Bytes
  pub ip_hash : Bytes

pub record Db : Type 0 where
  pub links : List Link
  pub clicks : List Click

-- What the database fills in on INSERT: gen_random_uuid() and now().
pub record Minted : Type 0 where
  pub id : ℕ
  pub at : ℕ

-- `deleted_at IS NULL`
unfoldable pub is_live : Link → Bool
unfolding is_nil
is_live r = is_nil r.deleted_at

-- `id = $1`
abbrev pub has_id : ℕ → Link → Bool
has_id id r = r.id == id

-- `code = $1 AND deleted_at IS NULL`
abbrev pub has_live_code : Bytes → Link → Bool
has_live_code code r = bytes_eq r.code code && is_live r

-- `id = $1 AND tenant_id = $2 AND deleted_at IS NULL`
abbrev pub is_owned : ℕ → ℕ → Link → Bool
is_owned tenant id r = r.id == id && r.tenant_id == tenant && is_live r

-- `column < $2`, which NULL does not satisfy
abbrev pub is_before : Option ℕ → ℕ → Bool
is_before none cutoff = Bool.false
is_before (some t) cutoff = ltb t cutoff
