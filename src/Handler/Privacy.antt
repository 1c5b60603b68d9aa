-- ===== src/Handler/Privacy.antt =====
-- What a tenant reads does not depend on the rows of another.
use go_link_shortener.Base.{ℕ, ◌≡◌, refl, Bool, Bytes}
use go_link_shortener.Store.Stats.{Sql}
use go_link_shortener.Store.Privacy.{LooksSame, get_by_id-same, list_by_tenant-same}
use go_link_shortener.Service.World.{World}
use go_link_shortener.Service.Links
use go_link_shortener.Service.Stats.{StatsFaults}
use go_link_shortener.Handler.Request.{Decoder, with_id-same}
use go_link_shortener.Handler.Links.{LinkHandler, get_link, list}
use go_link_shortener.Handler.Stats.Windows.{report-same}
use go_link_shortener.Handler.Stats.{StatsQuery, link_stats}

module _ (tenant : ℕ) (a b : World) (same : LooksSame tenant a.db b.db) where
  get_link-same :
      (h : LinkHandler) (fault : Bool) (param : Bytes)
      → get_link h fault tenant param a ≡ get_link h fault tenant param b
  unfolding get_link Links.get_link
  get_link-same h fault param =
      with_id-same h.decoder param _ _ λ id. rw (get_by_id-same tenant a.db b.db same fault id) refl

  list-same :
      (h : LinkHandler) (fault : Bool) (limit offset : Bytes)
      → list h fault tenant limit offset a ≡ list h fault tenant limit offset b
  unfolding list Links.list
  list-same h fault limit offset = rw (list_by_tenant-same tenant a.db b.db same fault _ _) refl

-- Two worlds with the same rows of a tenant give it the same answers: for a link, for its list of
-- links, and for the statistics of a link, whatever the parameters and whichever queries fail.
pub reads-same :
    (tenant : ℕ) (a b : World)
    → LooksSame tenant a.db b.db
    → ((h : LinkHandler) (fault : Bool) (param : Bytes)
        → get_link h fault tenant param a ≡ get_link h fault tenant param b)
      × ((h : LinkHandler) (fault : Bool) (limit offset : Bytes)
          → list h fault tenant limit offset a ≡ list h fault tenant limit offset b)
      × ((d : Decoder) (sql : Sql) (f : StatsFaults) (now : ℕ) (param : Bytes) (q : StatsQuery)
          → link_stats d sql f now tenant param q a.db ≡ link_stats d sql f now tenant param q b.db)
reads-same tenant a b same = (
  get_link-same tenant a b same,
  list-same tenant a b same,
  λ d sql f now param q. report-same d sql f now tenant param q a.db b.db same,
)
