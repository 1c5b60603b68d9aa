-- ===== src/Handler/Redirect.antt =====
-- internal/handler/redirect.go and click_recorder.go. A run keeps the event given to the pipeline
-- and the label given to the metrics. `location` is what `c.Redirect` is called with.
pub mod Serving
use go_link_shortener.Base.{
  ℕ, Bool, true, false, Option, none, some, Bytes, codes, ℤ, eq_ℤ, if◌then◌else◌,
}
use go_link_shortener.Domain.Errors.{Error, not_found, gone, Result, ok, err}
use go_link_shortener.Domain.Link.{Link, redirect_permanent}
use go_link_shortener.Http.{Reply, no_body, respond_error}
use go_link_shortener.Analytics.Enrich.{ClickEvent}
use go_link_shortener.Service.World.{World}
use go_link_shortener.Service.Redirect.{CacheTtls, Faults, resolve}

-- what is read of the request
pub record RedirectRequest : Type 0 where
  pub code : Bytes
  pub referrer : Bytes
  pub user_agent : Bytes
  pub client_ip : Bytes

-- `now` is the clock of the service, `clicked_at` that of the recorder.
pub record RedirectEnv : Type 0 where
  pub has_clicks : Bool
  pub has_metrics : Bool
  pub faults : Faults
  pub now : ℕ
  pub clicked_at : ℕ

pub record RedirectRun : Type 0 where
  pub reply : Reply
  pub clicked : Option ClickEvent
  pub observed : Option Bytes

unfoldable pub redirect_status : ℤ → ℕ
redirect_status rt = if eq_ℤ rt redirect_permanent then 301 else 302

unfoldable pub redirect_result : Error → Bytes
redirect_result not_found = codes "not_found"
redirect_result gone = codes "gone"
redirect_result e = codes "error"

unfoldable pub click_event : RedirectRequest → ℕ → Link → ClickEvent
click_event q now l = record {
  link_id = l.id;
  tenant_id = l.tenant_id;
  code = l.code;
  occurred_at = now;
  referrer = q.referrer;
  user_agent = q.user_agent;
  ip = q.client_ip;
}

observe : RedirectEnv → Bytes → Option Bytes
observe env label = if env.has_metrics then some label else none

record_click : RedirectEnv → RedirectRequest → Link → Option ClickEvent
unfolding click_event
record_click env q l = if env.has_clicks then some (click_event q env.clicked_at l) else none

-- the handler after `Resolve`
respond : RedirectEnv → RedirectRequest → Result Link → RedirectRun
unfolding observe record_click respond_error redirect_status redirect_result
respond env q (err e) = record {
  reply = respond_error e;
  clicked = none;
  observed = observe env (redirect_result e);
}
respond env q (ok l) = record {
  reply = record {
    status = redirect_status l.redirect_type;
    location = some l.target_url;
    body = no_body;
  };
  clicked = record_click env q l;
  observed = observe env (codes "served");
}

unfoldable pub redirect : CacheTtls → RedirectEnv → RedirectRequest → World → RedirectRun × World
unfolding respond
redirect t env q w =
    let (answer, w') = resolve t env.faults env.now q.code w in (respond env q answer, w')
