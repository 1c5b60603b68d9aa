-- ===== src/Examples.antt =====
-- Runs of the model on concrete data, and the theorems applied to it.
pub mod Data
pub mod Stores
pub mod Background
pub mod Deliveries
pub mod Accounts
pub mod Requests
pub mod Tenancy
pub mod Traffic
use go_link_shortener.Base.{
  ◌≡◌, refl, true, false, none, some, List, [], ◌∷◌, Bytes, codes, pos, arith,
}
use go_link_shortener.Base.{length, take, all, leb, ◌++◌, if◌then◌else◌, ◌&&◌}
use go_link_shortener.Store.Links
use go_link_shortener.Store.History.{
  replay, creates as inserts, soft_deletes, purges, records, replay-IsSound,
}
use go_link_shortener.Store.Isolation.{rows_of, other_rows_kept, reads_own_rows}
use go_link_shortener.Shortcode.{generate, matches_alias}
use go_link_shortener.Shortcode.Sampling.{pool, generate-take}
use go_link_shortener.Shortcode.Letters.{
  spellings, is_base62, spelling, generate-surjective, generate-matches_alias,
}
use go_link_shortener.Service.Redirect.Agreement.{
  IsCoherent, served, answer_of, live_row, is_negative, resolve-agrees,
}
use go_link_shortener.Service.Redirect.Coherence.{resolve-IsCoherent, db-resolve}
use go_link_shortener.Service.Links.{create}
use go_link_shortener.Service.Links.Creation.{create-IsCoherent}
use go_link_shortener.Service.Links.Effect.{CreateEffect, create-CreateEffect}
use go_link_shortener.Service.Links.Changes.{update, delete}
use go_link_shortener.Service.Links.Changes.Freshness.{
  Evictable, update-IsCoherent, delete-IsCoherent,
}
use go_link_shortener.Analytics.Flush.{flush}
use go_link_shortener.Analytics.Flush.Eviction.{Evicts, flush-IsCoherent}
use go_link_shortener.System.{run}
use go_link_shortener.System.Consistency.{
  EvictsAll, run-IsSound, run-IsCoherent, run-resolve-agrees,
}
use go_link_shortener.Domain.Errors.{ok, not_found, err}
use go_link_shortener.Domain.Link.{Link, redirect_found}
use go_link_shortener.Store.Db.{Click, Db, is_live}
use go_link_shortener.Store.Cache
use go_link_shortener.Store.Integrity.{IsSound}
use go_link_shortener.Service.World.{World}
use go_link_shortener.Service.Redirect.{CacheTtls, Faults, resolve}
use go_link_shortener.Service.Links.{LinkService, CreateEnv, CreateLinkInput, new_link_service}
use go_link_shortener.Service.Links.Changes.{ChangeEnv, UpdateLinkInput}
use go_link_shortener.Analytics.Flush.{Wiring, FlushEnv}
use go_link_shortener.System.{Config, Call, resolves, creates, updates, deletes, flushes}
use go_link_shortener.Examples.Data.{
  hello, a_link, a_click, a_db, cold, ttls, no_faults, warm, service, a_change, a_patch, a_creation,
  an_input, wiring, a_flush, config, calls,
}

pub a_db-IsSound : IsSound a_db
unfolding is_live
a_db-IsSound = record { ids = (refl, tt); codes = (refl, tt); counts = (refl, tt); refs = refl }

cold-IsCoherent : IsCoherent cold
unfolding Cache.get Cache.read
cold-IsCoherent = record { mirrored = λ t code s e. absurd (ground (arith, e)) }

pub warm-IsCoherent : IsCoherent warm
warm-IsCoherent = resolve-IsCoherent ttls no_faults 30 hello cold cold-IsCoherent

pub warm-IsSound : IsSound warm.db
warm-IsSound = rw (db-resolve ttls no_faults 30 hello cold) a_db-IsSound

evictable : Evictable service a_change
unfolding new_link_service
evictable = record { cached = refl; evicts = refl }

flush-Evicts : Evicts wiring a_flush
flush-Evicts = record { cached = refl; works = refl }

calls-EvictsAll : EvictsAll config calls
unfolding EvictsAll
calls-EvictsAll = (evictable, (flush-Evicts, (evictable, tt)))

run-resolve-agrees_example : served (resolve ttls no_faults 70 hello (run config calls warm)).0 ≡ (
    if is_negative (Cache.get false 70 hello (run config calls warm).redis)
    then err not_found
    else served (answer_of 70 (live_row hello (run config calls warm).db)))
run-resolve-agrees_example =
    run-resolve-agrees config calls warm no_faults 70 hello calls-EvictsAll warm-IsSound
      warm-IsCoherent refl

run-IsCoherent_example : IsCoherent (run config calls warm)
run-IsCoherent_example =
    run-IsCoherent config calls warm calls-EvictsAll warm-IsSound warm-IsCoherent

create-CreateEffect_example :
    CreateEffect service 50 1 an_input warm (create service a_creation 1 an_input warm)
create-CreateEffect_example = create-CreateEffect service a_creation 1 an_input warm
