-- ===== src/Middleware/Gate/Entry.antt =====
-- Who gets to the handlers of /api/v1.
use go_link_shortener.Base.{
  if◌then◌else◌, ◌&&◌, not, ℕ, ◌≡◌, ◌≢◌, subst, refl, sym, ◌∙◌, ap, true, false, Option, Bytes,
  ◌==◌, arith, Bool-cases, inl, inr,
}
use go_link_shortener.Domain.ApiKey.{ApiKey}
use go_link_shortener.Store.ApiKeys.{Keys}
use go_link_shortener.Store.RateLimit.{sliding_window}
use go_link_shortener.Http.{Reply}
use go_link_shortener.Middleware.Auth.{Outcome, aborts, passes, api_key_auth}
use go_link_shortener.Middleware.Auth.Tokens.{IsBearerOf, api_key_auth-passes}
use go_link_shortener.Middleware.RateLimit.{
  Buckets, LimitHeaders, Admission, admitted, rejected, rate_limit,
}
use go_link_shortener.Middleware.RateLimit.Isolation.{rate_limit-allowed, rate_limit-others}
use go_link_shortener.Middleware.Gate.{
  Crypto, Limits, GateEnv, enters, admission, limited, api_gate,
}

-- The limiter allowed the request, or it was off or failed; no other tenant's bucket changed.
pub record IsAdmitted (l : Limits) (env : GateEnv) (k : ApiKey) (a b : Buckets) : Type 0 where
  pub counted :
      (if l.enabled && not env.limiter_fails
        then (sliding_window env.now l.window l.requests (a k.tenant_id)).0.allowed
        else true)
      ≡ true
  pub others : (t : ℕ) → (if t == k.tenant_id then a t else b t) ≡ a t

admission-enters :
    (k j : ApiKey) (p : Admission × Buckets) (h : Option LimitHeaders) (b : Buckets)
    → admission k p ≡ (enters j h, b)
    → (k ≡ j) × (p.0 ≡ admitted h) × (p.1 ≡ b)
unfolding admission
admission-enters k j (admitted h', b') h b e = ground arith
admission-enters k j (rejected h' r, b') h b e = absurd (ground arith)

limited-on :
    (l : Limits) (env : GateEnv) (a : Buckets) (j : ApiKey)
    → l.enabled ≡ true
    → limited l env a (passes j)
      ≡ admission j (rate_limit env.limiter_fails env.now l.window l.requests j.tenant_id a)
unfolding limited
limited-on l env a j on = rw on refl

limited-off :
    (l : Limits) (env : GateEnv) (a b : Buckets) (j k : ApiKey) (h : Option LimitHeaders)
    → l.enabled ≡ false
    → limited l env a (passes j) ≡ (enters k h, b)
    → (j ≡ k) × (a ≡ b)
unfolding limited
limited-off l env a b j k h off e = ground arith

rated-IsAdmitted :
    (l : Limits) (env : GateEnv) (a b : Buckets) (j : ApiKey) (h : Option LimitHeaders)
    → (rate_limit env.limiter_fails env.now l.window l.requests j.tenant_id a).0 ≡ admitted h
    → (rate_limit env.limiter_fails env.now l.window l.requests j.tenant_id a).1 ≡ b
    → IsAdmitted l env j a b
rated-IsAdmitted l env a b j h allowed left = record {
  counted = elim (Bool-cases env.limiter_fails) [
    | inl down ↦ ground arith
    | inr up ↦
        let counted = rate_limit-allowed env.now l.window l.requests j.tenant_id a h (
          subst (λ f. (rate_limit f env.now l.window l.requests j.tenant_id a).0 ≡ admitted h) up
            allowed) in
        ground arith
  ];
  others = λ t. elim (Bool-cases (t == j.tenant_id)) [
    | inl same ↦ ground arith
    | inr other ↦
        let kept =
          ap (λ f. f t) (sym left)
          ∙ rate_limit-others env.limiter_fails env.now l.window l.requests j.tenant_id t a other in
        ground arith
  ];
}

limited-aborts :
    (l : Limits) (env : GateEnv) (a b : Buckets) (r : Reply) (k : ApiKey) (h : Option LimitHeaders)
    → limited l env a (aborts r) ≢ (enters k h, b)
unfolding limited
limited-aborts l env a b r k h e = ground arith

limited-enters :
    (l : Limits) (env : GateEnv) (a b : Buckets) (o : Outcome) (k : ApiKey)
    (h : Option LimitHeaders)
    → limited l env a o ≡ (enters k h, b)
    → (o ≡ passes k) × IsAdmitted l env k a b
unfolding limited
limited-enters l env a b (aborts r) k h e = absurd (limited-aborts l env a b r k h e)
limited-enters l env a b (passes j) k h e = elim (Bool-cases l.enabled) [
  | inl on ↦
      let (same, allowed, left) =
        admission-enters j k
          (rate_limit env.limiter_fails env.now l.window l.requests j.tenant_id a) h b
          (sym (limited-on l env a j on) ∙ e) in
      (
        ap passes same,
        subst (λ x. IsAdmitted l env x a b) same (rated-IsAdmitted l env a b j h allowed left),
      )
  | inr off ↦
      let (same, left) = limited-off l env a b j k h off e in
      (
        ap passes same,
        record { counted = ground arith; others = λ t. ground (arith, ap (λ f. f t) (sym left)) },
      )
]

-- A request that gets to a handler of /api/v1 carries, as a bearer token, a well-formed key whose row
-- is in the table and not revoked, and runs as the tenant of that row; its tenant's bucket allowed it,
-- unless the limiter is off or failed; and no other tenant's bucket has changed.
pub api_gate-enters :
    (c : Crypto) (l : Limits) (env : GateEnv) (header : Bytes) (keys : Keys) (a b : Buckets)
    (k : ApiKey) (h : Option LimitHeaders)
    → api_gate c l env header keys a ≡ (enters k h, b)
    → IsBearerOf c.trim_space c.hash keys header k × IsAdmitted l env k a b
unfolding api_gate
api_gate-enters c l env header keys a b k h e =
    let (passed, ok_bucket) =
      limited-enters l env a b (api_key_auth c.trim_space c.hash env.keys_fail header keys) k h e in
    (api_key_auth-passes c.trim_space c.hash env.keys_fail header keys k passed, ok_bucket)
