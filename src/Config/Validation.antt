-- ===== src/Config/Validation.antt =====
-- What `Load` guarantees of a configuration that it returns.
use go_link_shortener.Base.{
  not, ◌≡◌, refl, Bool, true, false, ◌&&◌, ◌||◌, none, some, List, [], ◌∷◌, ◌++◌, codes, bytes_eq,
  one_of, String, ℤ, pos, ltb_ℤ, leb_ℤ, ◌≤ℤ◌, ◌<ℤ◌, arith, sym, ◌∙◌, subst, if◌then◌else◌,
  Bool-cases, inl, inr,
}
use go_link_shortener.Config.{
  Settings, Environment, read_settings, note, problems, is_empty, load, log_levels, dev_salt,
}

-- What the components rely on.
pub record IsValid (c : Settings) : Type 0 where
  pub env_known : (bytes_eq c.env (codes "dev") || bytes_eq c.env (codes "prod")) ≡ true
  pub base_url_set : bytes_eq c.base_url [] ≡ false
  pub level_known : one_of log_levels c.log_level ≡ true
  pub port_range : (pos 1 ≤ℤ c.server.port) × (c.server.port ≤ℤ pos 65535)
  pub dsn_set : bytes_eq c.postgres.dsn [] ≡ false
  pub connects : pos 1 ≤ℤ c.postgres.max_conns
  pub redis_set : bytes_eq c.redis.addr [] ≡ false
  pub buffers : pos 1 ≤ℤ c.analytics.buffer_size
  pub drains : pos 1 ≤ℤ c.analytics.workers
  pub batches : pos 1 ≤ℤ c.analytics.batch_size
  pub permits : pos 1 ≤ℤ c.rate_limit.requests
  pub slides : pos 0 <ℤ c.rate_limit.window
  pub retries : pos 0 ≤ℤ c.webhook.max_retries
  pub code_range : (pos 4 ≤ℤ c.shortcode.length) × (c.shortcode.length ≤ℤ pos 16)
  pub salted : (bytes_eq c.env (codes "prod") && bytes_eq c.ip_hash_salt dev_salt) ≡ false
  pub demo_capped : pos 0 ≤ℤ c.demo.max_link_ttl
  pub demo_swept : pos 0 <ℤ c.demo.cleanup_interval
  pub demo_kept : pos 0 ≤ℤ c.demo.retention

is_empty-append : (xs ys : List String) → is_empty (xs ++ ys) ≡ (is_empty xs && is_empty ys)
unfolding is_empty
is_empty-append [] ys = refl
is_empty-append (x ∷ xs) ys = refl

is_empty-note : (b : Bool) (msg : String) → is_empty (note b msg) ≡ not b
unfolding is_empty
is_empty-note true msg = refl
is_empty-note false msg = refl

both : (a b : Bool) → (a && b) ≡ true → (a ≡ true) × (b ≡ true)
both a b h = ground arith

not-true : {b : Bool} → not b ≡ true → b ≡ false
not-true h = ground arith

not-not-true : {b : Bool} → not (not b) ≡ true → b ≡ true
not-not-true h = ground arith

one_true : (a b : Bool) → not (not a && not b) ≡ true → (a || b) ≡ true
one_true a b h = ground arith

at_least : (a b : ℤ) → not (ltb_ℤ b a) ≡ true → a ≤ℤ b
at_least a b h = ground arith

above : (a b : ℤ) → not (leb_ℤ b a) ≡ true → a <ℤ b
above a b h = ground arith

within : (a b x : ℤ) → not (ltb_ℤ x a || ltb_ℤ b x) ≡ true → (a ≤ℤ x) × (x ≤ℤ b)
within a b x h = ground arith

clear :
    (c : Settings)
    → is_empty (problems c) ≡ (
        not (not (bytes_eq c.env (codes "dev")) && not (bytes_eq c.env (codes "prod")))
        && not (bytes_eq c.base_url [])
        && not (not (one_of log_levels c.log_level))
        && not (ltb_ℤ c.server.port (pos 1) || ltb_ℤ (pos 65535) c.server.port)
        && not (bytes_eq c.postgres.dsn [])
        && not (ltb_ℤ c.postgres.max_conns (pos 1))
        && not (bytes_eq c.redis.addr [])
        && not (ltb_ℤ c.analytics.buffer_size (pos 1))
        && not (ltb_ℤ c.analytics.workers (pos 1))
        && not (ltb_ℤ c.analytics.batch_size (pos 1))
        && not (ltb_ℤ c.rate_limit.requests (pos 1))
        && not (leb_ℤ c.rate_limit.window (pos 0))
        && not (ltb_ℤ c.webhook.max_retries (pos 0))
        && not (ltb_ℤ c.shortcode.length (pos 4) || ltb_ℤ (pos 16) c.shortcode.length)
        && not (bytes_eq c.env (codes "prod") && bytes_eq c.ip_hash_salt dev_salt)
        && not (ltb_ℤ c.demo.max_link_ttl (pos 0))
        && not (leb_ℤ c.demo.cleanup_interval (pos 0))
        && not (ltb_ℤ c.demo.retention (pos 0)))
unfolding problems
clear c = simp (is_empty-append, is_empty-note)

problems-IsValid : (c : Settings) → is_empty (problems c) ≡ true → IsValid c
problems-IsValid c clean =
    let r17 = sym (clear c) ∙ clean in
    let (r16, keep_for) = both _ _ r17 in
    let (r15, sweep) = both _ _ r16 in
    let (r14, cap) = both _ _ r15 in
    let (r13, salt) = both _ _ r14 in
    let (r12, length) = both _ _ r13 in
    let (r11, retries) = both _ _ r12 in
    let (r10, window) = both _ _ r11 in
    let (r9, requests) = both _ _ r10 in
    let (r8, batch) = both _ _ r9 in
    let (r7, workers) = both _ _ r8 in
    let (r6, buffer) = both _ _ r7 in
    let (r5, redis) = both _ _ r6 in
    let (r4, conns) = both _ _ r5 in
    let (r3, dsn) = both _ _ r4 in
    let (r2, port) = both _ _ r3 in
    let (r1, level) = both _ _ r2 in
    let (env, base) = both _ _ r1 in
    record {
      env_known = one_true (bytes_eq c.env (codes "dev")) (bytes_eq c.env (codes "prod")) env;
      base_url_set = not-true base;
      level_known = not-not-true level;
      port_range = within (pos 1) (pos 65535) c.server.port port;
      dsn_set = not-true dsn;
      connects = at_least (pos 1) c.postgres.max_conns conns;
      redis_set = not-true redis;
      buffers = at_least (pos 1) c.analytics.buffer_size buffer;
      drains = at_least (pos 1) c.analytics.workers workers;
      batches = at_least (pos 1) c.analytics.batch_size batch;
      permits = at_least (pos 1) c.rate_limit.requests requests;
      slides = above (pos 0) c.rate_limit.window window;
      retries = at_least (pos 0) c.webhook.max_retries retries;
      code_range = within (pos 4) (pos 16) c.shortcode.length length;
      salted = not-true salt;
      demo_capped = at_least (pos 0) c.demo.max_link_ttl cap;
      demo_swept = above (pos 0) c.demo.cleanup_interval sweep;
      demo_kept = at_least (pos 0) c.demo.retention keep_for;
    }

loaded : (d c : Settings) → (if is_empty (problems d) then some d else none) ≡ some c → IsValid c
loaded d c h = elim (Bool-cases (is_empty (problems d))) [
  | inl clean ↦ subst IsValid (ground arith) (problems-IsValid d clean)
  | inr unclean ↦ absurd (ground arith)
]

-- A configuration that `Load` returns, from whatever environment, is valid: known environment and
-- log level; a base URL, a database and a Redis address; a port of 1 to 65535; at least one database
-- connection, one buffered click, one pipeline worker, one click in a batch and one request in a
-- positive window; no negative number of webhook retries; codes of 4 to 16 letters; in production
-- another salt than the default; no negative demo cap or retention, and a positive sweep interval.
pub load-IsValid : (e : Environment) (c : Settings) → load e ≡ some c → IsValid c
unfolding load
load-IsValid e c h = loaded (read_settings e) c h
