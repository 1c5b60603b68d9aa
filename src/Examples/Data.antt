-- ===== src/Examples/Data.antt =====
-- Concrete data for the examples: a link with one click, a service and a history of calls.
use go_link_shortener.Base.{true, false, none, some, List, [], ◌∷◌, Bytes, codes, pos}
use go_link_shortener.Domain.Errors.{ok}
use go_link_shortener.Domain.Link.{Link, redirect_found}
use go_link_shortener.Store.Db.{Click, Db}
use go_link_shortener.Store.Cache
use go_link_shortener.Service.World.{World}
use go_link_shortener.Service.Redirect.{CacheTtls, Faults, resolve}
use go_link_shortener.Service.Links.{LinkService, CreateEnv, CreateLinkInput, new_link_service}
use go_link_shortener.Service.Links.Changes.{ChangeEnv, UpdateLinkInput}
use go_link_shortener.Analytics.Flush.{Wiring, FlushEnv}
use go_link_shortener.System.{Config, Call, resolves, creates, updates, deletes, flushes}

abbrev pub hello : Bytes
hello = codes "hello"

abbrev pub a_link : Link
a_link = record {
  id = 7;
  tenant_id = 1;
  code = hello;
  target_url = codes "https://a.io";
  redirect_type = redirect_found;
  expires_at = some 900;
  max_clicks = some (pos 2);
  click_count = 1;
  created_at = 10;
  updated_at = 10;
  deleted_at = none;
}

abbrev pub a_click : Click
a_click = record {
  link_id = 7;
  tenant_id = 1;
  occurred_at = 20;
  referrer = [];
  user_agent = [];
  browser = codes "other";
  os = codes "other";
  device = codes "other";
  country = [];
  ip_hash = [];
}

abbrev pub a_db : Db
a_db = record { links = a_link ∷ []; clicks = a_click ∷ [] }

abbrev pub cold : World
cold = record {
  db = a_db;
  redis = Cache.empty_redis;
  created_events = [];
  cache_hits = 0;
  cache_misses = 0;
  flushed = 1;
  hooked_batches = [];
}

abbrev pub ttls : CacheTtls
ttls = record { ttl = 3600; neg_ttl = 30 }

abbrev pub no_faults : Faults
no_faults = record { cache_get = false; db_get = false; cache_set = false }

-- The world after a first redirect: the link is cached.
abbrev pub warm : World
warm = (resolve ttls no_faults 30 hello cold).1

abbrev pub service : LinkService
service =
    new_link_service (λ raw. some (record { scheme = codes "https"; host = codes "a.io" })) true
      true (pos 3)

abbrev pub a_change : ChangeEnv
a_change = record {
  now = 40;
  db_now = 40;
  get_fails = false;
  write_fails = false;
  invalidate_fails = false;
}

abbrev pub a_patch : UpdateLinkInput
a_patch = record {
  target_url = some (codes "https://b.io");
  redirect_type = none;
  expires_at = none;
  clear_expires_at = true;
  max_clicks = none;
  clear_max_clicks = false;
}

abbrev pub a_creation : CreateEnv
a_creation = record {
  now = 50;
  candidate = λ k. ok (codes "xyz1234");
  minted = λ k. record { id = 8; at = 50 };
  insert_fails = λ k. false;
}

abbrev pub an_input : CreateLinkInput
an_input = record {
  target_url = codes "https://c.io";
  custom_alias = codes "my-alias";
  redirect_type = pos 0;
  expires_at = none;
  max_clicks = none;
}

abbrev pub wiring : Wiring
wiring = record { has_cache = true; has_hook = true }

abbrev pub a_flush : FlushEnv
a_flush = record { db_now = 60; write_fails = false; invalidate_fails = false }

abbrev pub config : Config
config = record { ttls = ttls; links = service; wiring = wiring }

abbrev pub calls : List Call
calls =
    resolves no_faults 30 hello
    ∷ updates a_change 1 7 a_patch
    ∷ creates a_creation 1 an_input
    ∷ flushes a_flush (a_click ∷ [])
    ∷ deletes a_change 1 7
    ∷ []
