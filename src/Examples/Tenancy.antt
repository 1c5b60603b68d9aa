-- ===== src/Examples/Tenancy.antt =====
-- Requests of one tenant beside the data of another.
use go_link_shortener.Base.{
  map, sym, ℕ, ap, ◌∙◌, Bool, any, find, ◌≡◌, refl, false, none, some, List, [], ◌∷◌, Bytes, codes,
  pos, ◌==◌, arith,
}
use go_link_shortener.Domain.ApiKey.{ApiKey}
use go_link_shortener.Middleware.Gate.{GateEnv}
use go_link_shortener.Middleware.Gate.Entry.{api_gate-enters}
use go_link_shortener.Handler.Request.{Decoder}
use go_link_shortener.Server.{
  api, Server, State, post_link, get_link, delete_link, handle, ApiRequest, api_all,
}
use go_link_shortener.Server.Isolation.{undated, NotAs, IsUntouched, api-IsUntouched}
use go_link_shortener.Server.Noninterference.{NoneAs, api_all-unread}
use go_link_shortener.Store.Integrity.{IsSound}
use go_link_shortener.Server.Process.{
  Process, Happening, requested, visited, flushed_batch, swept, advance_all,
}
use go_link_shortener.Server.Process.Soundness.{advance_all-IsSound}
use go_link_shortener.Examples.{warm-IsSound}
use go_link_shortener.Examples.Data.{
  a_click, wiring, a_flush, hello, ttls, warm, service, a_change, a_creation,
}
use go_link_shortener.Examples.Accounts.{crypto, a_key, bearer, limits, gate_env, no_buckets}
use go_link_shortener.Examples.Requests.{json, sql, a_request, redirect_env}

abbrev decoder : Decoder
decoder = record {
  json = json;
  bind_link = λ body. some (record {
    url = codes "https://c.io";
    custom_alias = codes "my-alias";
    redirect_type = pos 0;
    expires_at = none;
    max_clicks = none;
  });
  bind_webhook = λ body. none;
  bind_fields = λ body. none;
  parse_uuid = λ param. some 7;
  parse_time = λ raw. none;
  atoi = λ raw. none;
}

abbrev server : Server
server = record {
  crypto = crypto;
  limits = limits;
  links = record { svc = service; decoder = decoder; base_url = codes "https://s.io" };
  decoder = decoder;
  sql = sql;
  ttls = ttls;
}

abbrev state : State
state = record { keys = a_key ∷ []; buckets = no_buckets; world = warm; hooks = [] }

-- tenant 2 creates a link and tries to delete one of tenant 1
abbrev requests : List ApiRequest
requests =
    record { env = gate_env; header = bearer; call = post_link a_creation [] }
    ∷ record { env = gate_env; header = bearer; call = delete_link a_change [] }
    ∷ []

find-avoids :
    (p q : ApiKey → Bool) (keys : List ApiKey) (k : ApiKey)
    → any q keys ≡ false
    → find p keys ≡ some k
    → q k ≡ false
find-avoids p q [] k h e = absurd (ground arith)
find-avoids p q (j ∷ keys) k h e = ground (arith, find-avoids p q keys k)

-- Nobody gets in as a tenant without keys.
keyless-NotAs :
    (t : ℕ) (sv : Server) (env : GateEnv) (header : Bytes) (st : State)
    → any (λ k. k.tenant_id == t) st.keys ≡ false
    → NotAs t sv env header st
keyless-NotAs t sv env header st none_of k h b e =
    let (key, admitted) =
      api_gate-enters sv.crypto sv.limits env header st.keys st.buckets b k h e in
    find-avoids _ (λ r. r.tenant_id == t) st.keys k none_of key.owned.row

any-undated :
    (t : ℕ) (keys : List ApiKey)
    → any (λ k. k.tenant_id == t) (map undated keys) ≡ any (λ k. k.tenant_id == t) keys
any-undated t [] = refl
any-undated t (k ∷ keys) = ground (arith, any-undated t keys)

keyless-NoneAs :
    (t : ℕ) (sv : Server) (rs : List ApiRequest) (st : State)
    → any (λ k. k.tenant_id == t) st.keys ≡ false
    → NoneAs t sv rs st
keyless-NoneAs t sv [] st none_of = tt
keyless-NoneAs t sv (r ∷ rs) st none_of =
    let not_as = keyless-NotAs t sv r.env r.header st none_of in
    let untouched = api-IsUntouched t sv r.env r.header r.call st not_as in
    (
      not_as,
      keyless-NoneAs t sv rs _ (
          sym (any-undated t (api sv r.env r.header r.call st).1.keys)
          ∙ ap (any (λ k. k.tenant_id == t)) untouched.keys
          ∙ any-undated t st.keys
          ∙ none_of),
    )

api_all-unread_example :
    IsUntouched 1 (api_all server requests state) state
    × ((handle server 1 (get_link false hello) (api_all server requests state)).0
        ≡ (handle server 1 (get_link false hello) state).0)
api_all-unread_example =
    api_all-unread 1 server requests state (get_link false hello)
      (keyless-NoneAs 1 server requests state refl) refl

abbrev process : Process
process = record {
  server = server;
  wiring = wiring;
  janitor = record { tenant_id = 1; retention = 50 };
}

abbrev happenings : List Happening
happenings =
    requested (record { env = gate_env; header = bearer; call = post_link a_creation [] })
    ∷ visited redirect_env a_request
    ∷ flushed_batch a_flush (a_click ∷ [])
    ∷ swept false 960
    ∷ []

advance_all-IsSound_example : IsSound (advance_all process happenings state).world.db
advance_all-IsSound_example = advance_all-IsSound process happenings state warm-IsSound
