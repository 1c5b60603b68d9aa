-- ===== src/Service/Redirect/Races.antt =====
-- `fromDB` of internal/service/redirect.go is a read and, some time later, a write of the cache. What
-- happens when other calls come between the two.
use go_link_shortener.Base.{ℕ, ◌≡◌, true, false, Bytes, bytes_eq_refl, arith}
use go_link_shortener.Domain.Errors.{ok}
use go_link_shortener.Domain.Link.{Link, is_active}
use go_link_shortener.Store.Links.{get_by_code}
use go_link_shortener.Store.Cache.Reads.{still_there, snapshot, get-set}
use go_link_shortener.Service.World.{World}
use go_link_shortener.Service.Redirect.{CacheTtls, Faults, check_active, answer, backfill, resolve}
use go_link_shortener.Service.Redirect.Agreement.{served, serve}

check_active-snapshot :
    (now : ℕ) (l : Link)
    → is_active l now ≡ true
    → served (check_active now (snapshot l)) ≡ ok (serve l)
unfolding check_active is_active
check_active-snapshot now l active = ground arith

-- A redirect reads the live row of a code in `w`, and writes the cache when the world has become `w'`,
-- whatever an update, a deletion or a purge has made of the row and of the cache by then. As long as
-- its entry lives and the row as it was read is active, `Resolve` serves the row as it was read.
pub resolve-late_backfill :
    (t : CacheTtls) (f : Faults) (now later : ℕ) (code : Bytes) (l : Link) (w w' : World)
    → f.cache_get ≡ false
    → get_by_code false code w.db ≡ ok l
    → is_active l later ≡ true
    → still_there t.ttl now later ≡ true
    → served
        (resolve t f later l.code (backfill t false now code w' (get_by_code false code w.db)).1).0
      ≡ ok (serve l)
unfolding resolve answer backfill
resolve-late_backfill t f now later code l w w' up row active there =
    rw (row, up, get-set t.ttl now later l l.code w'.redis (bytes_eq_refl l.code), there)
      (check_active-snapshot later l active)
