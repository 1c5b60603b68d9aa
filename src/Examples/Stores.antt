-- ===== src/Examples/Stores.antt =====
-- The tables and the code generator on concrete data, and the theorems applied to them.
use go_link_shortener.Store.History.{
  replay, creates as inserts, soft_deletes, purges, records, replay-IsSound,
}
use go_link_shortener.Store.Integrity.{IsSound}
use go_link_shortener.Base.{false}
use go_link_shortener.Examples.Data.{a_link, a_click, a_db}
use go_link_shortener.Examples.{a_db-IsSound}
use go_link_shortener.Base.{ℕ, suc, zero, ◌+◌, ◌<◌, any, bytes_eq}
use go_link_shortener.Store.Db.{has_live_code, is_live}
use go_link_shortener.Service.Links.{CreateEnv, allocate_generated_code}
use go_link_shortener.Service.Links.Allocation.{IsSmooth, allocate-first_free}
use go_link_shortener.Examples.Data.{a_creation, hello}
use go_link_shortener.Base.{◌≡◌, refl, true, false, some, [], ◌∷◌, Bytes, codes, arith}
use go_link_shortener.Base.{◌++◌}
use go_link_shortener.Store.Links
use go_link_shortener.Shortcode.{generate}
use go_link_shortener.Shortcode.Letters.{spelling, generate-surjective}
use go_link_shortener.Domain.Errors.{ok}
use go_link_shortener.Domain.Link.{Link}
use go_link_shortener.Store.Db.{Db}
use go_link_shortener.Examples.Data.{a_link, a_db}

abbrev b_link : Link
b_link = record a_link { tenant_id = 2; id = 5; code = codes "other" }

abbrev two_tenants : Db
two_tenants = record { links = b_link ∷ a_link ∷ []; clicks = [] }

generate-surjective_example :
    generate 1 7 (λ _. some (spelling (codes "healthz") ++ spelling (codes "healthz")))
    ≡ some (ok (codes "healthz"))
generate-surjective_example = generate-surjective (codes "healthz") refl

abbrev draws : ℕ → Bytes
draws zero = hello
draws (suc k) = codes "xyz1234"

abbrev colliding : CreateEnv
colliding = record a_creation { candidate = λ k. ok (draws k) }

colliding-IsSmooth : IsSmooth colliding draws a_db
colliding-IsSmooth = record { draws = λ j. refl; inserts = λ j. refl; ids = λ j. refl }

hello_taken : any (has_live_code hello) a_db.links ≡ true
unfolding bytes_eq is_live
hello_taken = refl

xyz_free : any (has_live_code (codes "xyz1234")) a_db.links ≡ false
unfolding bytes_eq is_live
xyz_free = refl

first_taken : (j : ℕ) → j < 1 → any (has_live_code (draws (0 + j))) a_db.links ≡ true
first_taken zero lt = hello_taken
first_taken (suc j) lt = absurd (omega arith)

allocate-first_free_example :
    (allocate_generated_code 3 0 colliding a_link a_db).0
    ≡ ok (Links.inserted (record { id = 8; at = 50 }) (record a_link { code = codes "xyz1234" }))
allocate-first_free_example =
    allocate-first_free colliding draws a_db colliding-IsSmooth 1 3 0 a_link (ground arith)
      first_taken xyz_free

replay-IsSound_example : IsSound (
    replay
      (soft_deletes false 30 1 7
        ∷ inserts false (record { id = 9; at = 31 }) a_link
        ∷ purges false 1 90
        ∷ records false 95 (a_click ∷ [])
        ∷ [])
      a_db)
replay-IsSound_example = replay-IsSound _ a_db a_db-IsSound
