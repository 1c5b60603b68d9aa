-- ===== src/System/Consistency.antt =====
-- The service as a whole keeps its answers consistent with its tables, as long as the evictions of
-- the cache succeed.
use go_link_shortener.Base.{if◌then◌else◌, ℕ, ◌≡◌, false, List, [], ◌∷◌, Bytes}
use go_link_shortener.Domain.Errors.{err, not_found}
use go_link_shortener.Store.Cache
use go_link_shortener.Store.Integrity.{IsSound}
use go_link_shortener.Service.World.{World}
use go_link_shortener.Service.Redirect.{Faults, resolve}
use go_link_shortener.Service.Redirect.Agreement.{
  IsCoherent, served, answer_of, live_row, is_negative, resolve-agrees,
}
use go_link_shortener.Service.Redirect.Coherence.{resolve-IsCoherent}
use go_link_shortener.Service.Links.Creation.{create-IsCoherent}
use go_link_shortener.Service.Links.Changes.Freshness.{
  Evictable, update-IsCoherent, delete-IsCoherent,
}
use go_link_shortener.Analytics.Flush.Eviction.{Evicts, flush-IsCoherent}
use go_link_shortener.System.{Config, Call, resolves, creates, updates, deletes, flushes, step, run}
use go_link_shortener.System.Soundness.{step-IsSound}

-- The evictions that a call attempts all succeed; the database and the other writes of the cache
-- may fail.
unfoldable pub EvictsAll : Config → List Call → Type 0
EvictsAll c [] = Unit
EvictsAll c (resolves f now code ∷ xs) = EvictsAll c xs
EvictsAll c (creates env tenant input ∷ xs) = EvictsAll c xs
EvictsAll c (updates env tenant id input ∷ xs) = Evictable c.links env × EvictsAll c xs
EvictsAll c (deletes env tenant id ∷ xs) = Evictable c.links env × EvictsAll c xs
EvictsAll c (flushes env batch ∷ xs) = Evicts c.wiring env × EvictsAll c xs

-- Any sequence of redirects, creations, updates, deletions and flushes, whatever fails in them, keeps
-- the tables sound: distinct ids, distinct codes among live rows, counters equal to the number of
-- click rows, and clicks that point to links.
pub run-IsSound : (c : Config) (xs : List Call) (w : World) → IsSound w.db → IsSound (run c xs w).db
unfolding run
run-IsSound c [] w h = h
run-IsSound c (x ∷ xs) w h = run-IsSound c xs (step c x w) (step-IsSound c x w h)

-- Any sequence of calls whose evictions all work, from a sound and coherent world, keeps the cache
-- coherent: every positive entry mirrors the live row with its code.
pub run-IsCoherent :
    (c : Config) (xs : List Call) (w : World)
    → EvictsAll c xs
    → IsSound w.db
    → IsCoherent w
    → IsCoherent (run c xs w)
unfolding run step EvictsAll
run-IsCoherent c [] w v sound h = h
run-IsCoherent c (resolves f now code ∷ xs) w v sound h =
    run-IsCoherent c xs _ v (step-IsSound c (resolves f now code) w sound)
      (resolve-IsCoherent c.ttls f now code w h)
run-IsCoherent c (creates env tenant input ∷ xs) w v sound h =
    run-IsCoherent c xs _ v (step-IsSound c (creates env tenant input) w sound)
      (create-IsCoherent c.links env tenant input w h)
run-IsCoherent c (updates env tenant id input ∷ xs) w v sound h =
    run-IsCoherent c xs _ v.1 (step-IsSound c (updates env tenant id input) w sound)
      (update-IsCoherent c.links env tenant id input w v.0 sound h)
run-IsCoherent c (deletes env tenant id ∷ xs) w v sound h =
    run-IsCoherent c xs _ v.1 (step-IsSound c (deletes env tenant id) w sound)
      (delete-IsCoherent c.links env tenant id w v.0 sound h)
run-IsCoherent c (flushes env batch ∷ xs) w v sound h =
    run-IsCoherent c xs _ v.1 (step-IsSound c (flushes env batch) w sound)
      (flush-IsCoherent c.wiring env batch w v.0 sound h)

-- After any calls from a sound and coherent world in which every eviction that is attempted
-- succeeds, a redirect with the database up serves what the database says: the active live row with
-- the code, Gone for an inactive one, NotFound for none; only a live negative entry is answered by
-- NotFound whatever the database says. Database errors during the calls, and failures to read or to
-- fill the cache, do not matter.
pub run-resolve-agrees :
    (c : Config) (xs : List Call) (w : World) (f : Faults) (now : ℕ) (code : Bytes)
    → EvictsAll c xs
    → IsSound w.db
    → IsCoherent w
    → f.db_get ≡ false
    → served (resolve c.ttls f now code (run c xs w)).0 ≡ (
        if is_negative (Cache.get f.cache_get now code (run c xs w).redis)
        then err not_found
        else served (answer_of now (live_row code (run c xs w).db)))
run-resolve-agrees c xs w f now code v sound h up =
    resolve-agrees c.ttls f now code (run c xs w) (run-IsCoherent c xs w v sound h) up
