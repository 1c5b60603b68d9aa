-- ===== src/Service/Janitor/Sweeping.antt =====
-- What a sweep takes away, and what it leaves.
use go_link_shortener.Base.{ℕ, ◌-◌, ◌≡◌, false, not, keep, any, ◌==◌}
use go_link_shortener.Domain.Link.{Link, is_active}
use go_link_shortener.Store.Links.{is_purgeable, points_into}
use go_link_shortener.Store.Integrity.{IsSound}
use go_link_shortener.Service.World.{World}
use go_link_shortener.Service.Janitor.{LinkJanitor}

-- Only links of the demo tenant that had expired or been deleted before the cutoff are gone, all of
-- them, and with them exactly their clicks.
pub record IsSwept (j : LinkJanitor) (now : ℕ) (a b : World) : Type 0 where
  pub active : keep (λ r. is_active r now) b.db.links ≡ keep (λ r. is_active r now) a.db.links
  pub others :
      keep (λ r. not (r.tenant_id == j.tenant_id)) b.db.links
      ≡ keep (λ r. not (r.tenant_id == j.tenant_id)) a.db.links
  pub recent :
      keep (λ r. not (is_purgeable j.tenant_id (now - j.retention) r)) b.db.links
      ≡ keep (λ r. not (is_purgeable j.tenant_id (now - j.retention) r)) a.db.links
  pub clean : any (is_purgeable j.tenant_id (now - j.retention)) b.db.links ≡ false
  pub clicks : b.db.clicks ≡ keep (points_into b.db.links) a.db.clicks
  pub cache : b.redis ≡ a.redis
  pub sound : IsSound b.db
