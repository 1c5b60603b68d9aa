-- ===== src/System/Soundness.antt =====
-- Every call keeps the tables sound, whatever fails.
use go_link_shortener.Base.{◌∙◌, ◌&&◌, ℕ, ◌≡◌, sym, false, List, ◌∷◌, any, arith, subst}
use go_link_shortener.Domain.Errors.{Result, ok, err}
use go_link_shortener.Domain.Link.{Link}
use go_link_shortener.Store.Db.{has_live_code, is_live}
use go_link_shortener.Store.Integrity.{
  LiveCodesDistinct, IdsDistinct, CountsAgree, IsSound, update-IsSound, soft_delete-IsSound,
  unused_id, refs-cons,
}
use go_link_shortener.Store.Counting.{record_batch-IsSound}
use go_link_shortener.Service.World.{World}
use go_link_shortener.Service.Redirect.Coherence.{db-resolve}
use go_link_shortener.Service.Links.{LinkService, CreateEnv, CreateLinkInput, create}
use go_link_shortener.Service.Links.Effect.{CreateEffect, IsCreated, create-CreateEffect}
use go_link_shortener.Service.Links.Changes.Writes.{update-db, delete-db}
use go_link_shortener.Analytics.Flush.Eviction.{db-flush}
use go_link_shortener.System.{Config, Call, resolves, creates, updates, deletes, flushes, step}

unused-live :
    (l : Link) (rs : List Link)
    → any (has_live_code l.code) rs ≡ false
    → (is_live l && any (has_live_code l.code) rs) ≡ false
unused-live l rs h = ground arith

-- A table with one more row, as `Create` leaves it.
created-IsSound :
    (s : LinkService) (l : Link) (w w' : World) → IsCreated s l w w' → IsSound w.db → IsSound w'.db
created-IsSound s l w w' c h = record {
  ids = subst IdsDistinct (sym c.links) (c.unused_id, h.ids);
  codes = subst LiveCodesDistinct (sym c.links) (unused-live l w.db.links c.unused_code, h.codes);
  counts =
      subst (λ ls. CountsAgree w'.db.clicks ls) (sym c.links)
        (subst (λ cs. CountsAgree cs (l ∷ w.db.links)) (sym c.clicks)
          (c.unclicked ∙ sym (unused_id l.id w.db.links w.db.clicks h.refs c.unused_id), h.counts));
  refs = rw (c.links, c.clicks) (refs-cons l w.db.links w.db.clicks h.refs);
}

effect-IsSound :
    (s : LinkService) (now tenant : ℕ) (input : CreateLinkInput) (w : World)
    (p : Result Link × World)
    → CreateEffect s now tenant input w p
    → IsSound w.db
    → IsSound p.1.db
effect-IsSound s now tenant input w (ok l, w') (q, c) h = created-IsSound s l w w' c h
effect-IsSound s now tenant input w (err e, w') q h = rw q h

create-IsSound :
    (s : LinkService) (env : CreateEnv) (tenant : ℕ) (input : CreateLinkInput) (w : World)
    → IsSound w.db
    → IsSound (create s env tenant input w).1.db
create-IsSound s env tenant input w h =
    effect-IsSound s env.now tenant input w (create s env tenant input w)
      (create-CreateEffect s env tenant input w) h

pub step-IsSound : (c : Config) (x : Call) (w : World) → IsSound w.db → IsSound (step c x w).db
unfolding step
step-IsSound c (resolves f now code) w h = rw (db-resolve c.ttls f now code w) h
step-IsSound c (creates env tenant input) w h = create-IsSound c.links env tenant input w h
step-IsSound c (updates env tenant id input) w h =
    update-db IsSound c.links env tenant id input w h
      (λ l own. update-IsSound env.write_fails env.db_now l w.db h)
step-IsSound c (deletes env tenant id) w h =
    delete-db IsSound c.links env tenant id w h
      (soft_delete-IsSound env.write_fails env.db_now tenant id w.db h)
step-IsSound c (flushes env batch) w h =
    rw (db-flush c.wiring env batch w)
      (record_batch-IsSound env.write_fails env.db_now batch w.db h)
