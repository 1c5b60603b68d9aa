-- ===== src/Handler/Redirect/Serving.antt =====
-- What a visitor of a short link gets.
use go_link_shortener.Base.{
  pos, eq_ℤ, ℕ, ◌≡◌, refl, sym, subst, Bool, true, false, Option, none, some, Bytes, codes, arith,
  if◌then◌else◌,
}
use go_link_shortener.Domain.Errors.{not_found, gone, Result, ok, err}
use go_link_shortener.Domain.Link.{Link, is_active}
use go_link_shortener.Http.{respond_error, status_for_error}
use go_link_shortener.Store.Cache
use go_link_shortener.Service.World.{World}
use go_link_shortener.Service.Redirect.{CacheTtls, resolve}
use go_link_shortener.Service.Redirect.Agreement.{
  served, live_row, answer_of, is_negative, IsCoherent, resolve-agrees,
}
use go_link_shortener.Handler.Redirect.{
  redirect_result, RedirectRequest, RedirectEnv, RedirectRun, redirect_status, click_event, respond,
  observe, record_click, redirect,
}

-- the run for an answer: only what is served of the link matters
respond-served :
    (env : RedirectEnv) (q : RedirectRequest) (a b : Result Link)
    → served a ≡ served b
    → respond env q a ≡ respond env q b
unfolding respond record_click click_event
respond-served env q (ok a) (ok b) e = ground arith
respond-served env q (err a) (err b) e = ground arith
respond-served env q (ok a) (err b) e = absurd (ground arith)
respond-served env q (err a) (ok b) e = absurd (ground arith)

-- An error answer: nothing is recorded, and the metrics, if there are any, get the label.
pub record IsRefusal (env : RedirectEnv) (code : ℕ) (label : Bytes) (run : RedirectRun)
    : Type 0 where
  pub status : run.reply.status ≡ code
  pub nowhere : run.reply.location ≡ none
  pub unclicked : run.clicked ≡ none
  pub counted : run.observed ≡ (if env.has_metrics then some label else none)

-- A redirect to the target of the row, with the row's id, tenant and code, the recorder's time, and
-- what was read of the request given to the recorder, if there is one.
pub record IsRedirectTo (env : RedirectEnv) (q : RedirectRequest) (r : Link) (run : RedirectRun)
    : Type 0 where
  pub status : run.reply.status ≡ (if eq_ℤ r.redirect_type (pos 301) then 301 else 302)
  pub target : run.reply.location ≡ some r.target_url
  pub clicked : run.clicked ≡ (
      if env.has_clicks
      then some (record {
        link_id = r.id;
        tenant_id = r.tenant_id;
        code = r.code;
        occurred_at = env.clicked_at;
        referrer = q.referrer;
        user_agent = q.user_agent;
        ip = q.client_ip;
      })
      else none)
  pub counted : run.observed ≡ (if env.has_metrics then some (codes "served") else none)

-- what a visitor is due, by the live row of the code
pub IsVisit : RedirectEnv → RedirectRequest → Option Link → RedirectRun → Type 0
IsVisit env q none run = IsRefusal env 404 (codes "not_found") run
IsVisit env q (some r) run =
    if is_active r env.now then IsRedirectTo env q r run else IsRefusal env 410 (codes "gone") run

respond-not_found :
    (env : RedirectEnv) (q : RedirectRequest)
    → IsRefusal env 404 (codes "not_found") (respond env q (err not_found))
unfolding respond observe respond_error status_for_error redirect_result
respond-not_found env q = record { status = refl; nowhere = refl; unclicked = refl; counted = refl }

respond-gone :
    (env : RedirectEnv) (q : RedirectRequest)
    → IsRefusal env 410 (codes "gone") (respond env q (err gone))
unfolding respond observe respond_error status_for_error redirect_result
respond-gone env q = record { status = refl; nowhere = refl; unclicked = refl; counted = refl }

respond-redirect :
    (env : RedirectEnv) (q : RedirectRequest) (r : Link)
    → IsRedirectTo env q r (respond env q (ok r))
unfolding respond observe record_click click_event redirect_status
respond-redirect env q r = record { status = refl; target = refl; clicked = refl; counted = refl }

respond-IsVisit :
    (env : RedirectEnv) (q : RedirectRequest) (row : Option Link)
    → IsVisit env q row (respond env q (answer_of env.now row))
unfolding IsVisit
respond-IsVisit env q none = respond-not_found env q
respond-IsVisit env q (some r) = go (is_active r env.now)
  where
    go :
        (active : Bool)
        → let run = respond env q (if active then ok r else err gone) in
          if active then IsRedirectTo env q r run else IsRefusal env 410 (codes "gone") run
    go true = respond-redirect env q r
    go false = respond-gone env q

-- Over a coherent cache, with the database up, a request for a code is answered by the live row with
-- this code, whatever the cache does: a redirect to its target with its status when it is active,
-- and then the click is recorded under its link, tenant and code, with the recorder's time and the
-- request's referrer, user agent and address, if there is a recorder; 410 when it is not active, and 404 when
-- there is none, and then nothing is recorded. A live negative entry alone makes it 404.
pub redirect-IsVisit :
    (t : CacheTtls) (env : RedirectEnv) (q : RedirectRequest) (w : World)
    → IsCoherent w
    → env.faults.db_get ≡ false
    → if is_negative (Cache.get env.faults.cache_get env.now q.code w.redis)
      then IsRefusal env 404 (codes "not_found") (redirect t env q w).0
      else IsVisit env q (live_row q.code w.db) (redirect t env q w).0
unfolding redirect
redirect-IsVisit t env q w coherent up =
    go (is_negative (Cache.get env.faults.cache_get env.now q.code w.redis))
      (resolve-agrees t env.faults env.now q.code w coherent up)
  where
    row : Option Link
    row = live_row q.code w.db

    answer : Result Link
    answer = (resolve t env.faults env.now q.code w).0

    go :
        (negative : Bool)
        → served answer ≡ (if negative then err not_found else served (answer_of env.now row))
        → if negative
          then IsRefusal env 404 (codes "not_found") (respond env q answer)
          else IsVisit env q row (respond env q answer)
    go true agrees =
        subst (IsRefusal env 404 (codes "not_found"))
          (sym (respond-served env q answer (err not_found) agrees)) (respond-not_found env q)
    go false agrees =
        subst (IsVisit env q row) (sym (respond-served env q answer (answer_of env.now row) agrees))
          (respond-IsVisit env q row)
