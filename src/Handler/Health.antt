-- ===== src/Handler/Health.antt =====
-- internal/handler/health.go. A checker's outcome is none, or the text of its error; the order in
-- which Go ranges over the map of checkers is unspecified: here it is that of the list.
use go_link_shortener.Base.{
  ◌≡◌, refl, Bool, true, ◌&&◌, Option, none, some, List, [], ◌∷◌, ◌++◌, Bytes, codes, all, arith,
  if◌then◌else◌,
}
use go_link_shortener.Domain.Link.{is_nil}
use go_link_shortener.Http.{Reply, json, health_body}

abbrev pub Checks : Type 0
Checks = List (Bytes × Option Bytes)

unfoldable pub live : Reply
live = json 200 (health_body (codes "ok") [])

described : Option Bytes → Bytes
described none = codes "ok"
described (some e) = codes "error: " ++ e

-- the loop: the results, and whether all are healthy
run_checks : Checks → List (Bytes × Bytes) × Bool
unfolding described
run_checks [] = ([], true)
run_checks ((name, outcome) ∷ rest) =
    let (results, healthy) = run_checks rest in
    ((name, described outcome) ∷ results, is_nil outcome && healthy)

unfoldable pub ready : Checks → Reply
unfolding run_checks
ready checks =
    let (results, healthy) = run_checks checks in
    if healthy
    then json 200 (health_body (codes "ok") results)
    else json 503 (health_body (codes "unavailable") results)

healthy-all :
    (checks : Checks)
    → (run_checks checks).1 ≡ all (λ (c : Bytes × Option Bytes). is_nil c.1) checks
unfolding run_checks
healthy-all [] = refl
healthy-all ((name, outcome) ∷ rest) = ground (arith, healthy-all rest)

-- Ready answers 200 when no checker fails, and 503 otherwise.
pub ready-status :
    (checks : Checks)
    → (ready checks).status
      ≡ (if all (λ (c : Bytes × Option Bytes). is_nil c.1) checks then 200 else 503)
unfolding ready
ready-status checks = ground (arith, healthy-all checks)
