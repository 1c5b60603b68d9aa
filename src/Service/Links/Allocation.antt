-- ===== src/Service/Links/Allocation.antt =====
-- Which code `allocateGeneratedCode` of internal/service/link.go ends with.
use go_link_shortener.Base.{
  ℕ, zero, suc, ◌+◌, ◌≡◌, ◌<◌, refl, ap, ◌∙◌, subst, sym, true, false, Bytes, any, arith,
}
use go_link_shortener.Domain.Errors.{ok, err, conflict, code_exhausted}
use go_link_shortener.Domain.Link.{Link}
use go_link_shortener.Store.Db.{Db, has_id, has_live_code}
use go_link_shortener.Store.Links
use go_link_shortener.Service.Links.{CreateEnv, allocate_generated_code, on_candidate, on_insert}

-- Attempts that meet no failure but collisions: the generator gives `codes`, the inserts work, and
-- the database makes unused ids.
pub record IsSmooth (env : CreateEnv) (codes : ℕ → Bytes) (db : Db) : Type 0 where
  pub draws : (j : ℕ) → env.candidate j ≡ ok (codes j)
  pub inserts : (j : ℕ) → env.insert_fails j ≡ false
  pub ids : (j : ℕ) → any (has_id (env.minted j).id) db.links ≡ false

module _ (env : CreateEnv) (codes : ℕ → Bytes) (db : Db) (h : IsSmooth env codes db) where
  create-taken :
      (k : ℕ) (l : Link)
      → any (has_live_code (codes k)) db.links ≡ true
      → Links.create (env.insert_fails k) (env.minted k) (record l { code = codes k }) db
        ≡ (err conflict, db)
  unfolding Links.create Links.inserted
  create-taken k l taken = rw (h.inserts k) (ground arith)

  create-free :
      (k : ℕ) (l : Link)
      → any (has_live_code (codes k)) db.links ≡ false
      → (Links.create (env.insert_fails k) (env.minted k) (record l { code = codes k }) db).0
        ≡ ok (Links.inserted (env.minted k) (record l { code = codes k }))
  unfolding Links.create Links.inserted
  create-free k l free = rw (h.inserts k) (ground (arith, h.ids k))

  allocate-again :
      (left k : ℕ) (l : Link)
      → any (has_live_code (codes k)) db.links ≡ true
      → allocate_generated_code (suc left) k env l db
        ≡ allocate_generated_code left (k + 1) env (record l { code = codes k }) db
  unfolding allocate_generated_code on_candidate on_insert
  allocate-again left k l taken = rw (h.draws k, create-taken k l taken) refl

  allocate-found :
      (left k : ℕ) (l : Link)
      → any (has_live_code (codes k)) db.links ≡ false
      → (allocate_generated_code (suc left) k env l db).0
        ≡ ok (Links.inserted (env.minted k) (record l { code = codes k }))
  unfolding allocate_generated_code on_candidate on_insert
  allocate-found left k l free = rw (h.draws k) (ground (arith, create-free k l free))

  -- If the inserts of `allocateGeneratedCode` can fail only by a collision of codes, and `m` candidates
  -- are taken before one that is free, within the budget of attempts, then the link is inserted under
  -- that first free candidate.
  pub allocate-first_free :
      (m left k : ℕ) (l : Link)
      → m < left
      → ((j : ℕ) → j < m → any (has_live_code (codes (k + j))) db.links ≡ true)
      → any (has_live_code (codes (k + m))) db.links ≡ false
      → (allocate_generated_code left k env l db).0
        ≡ ok (Links.inserted (env.minted (k + m)) (record l { code = codes (k + m) }))
  allocate-first_free m zero k l lt taken free = absurd (omega arith)
  allocate-first_free zero (suc left) k l lt taken free =
      subst
        (λ i.
          (allocate_generated_code (suc left) k env l db).0
          ≡ ok (Links.inserted (env.minted i) (record l { code = codes i })))
        (k_zero k)
        (allocate-found left k l
          (subst (λ i. any (has_live_code (codes i)) db.links ≡ false) (sym (k_zero k)) free))
    where
      k_zero : (n : ℕ) → n ≡ n + 0
      k_zero n = omega arith
  allocate-first_free (suc m) (suc left) k l lt taken free =
      ap (λ p. p.0)
        (allocate-again left k l (
          subst (λ i. any (has_live_code (codes i)) db.links ≡ true) (omega arith)
            (taken 0 (omega arith))))
      ∙ subst
          (λ i.
            (allocate_generated_code left (k + 1) env (record l { code = codes k }) db).0
            ≡ ok (Links.inserted (env.minted i) (record l { code = codes i })))
          (shift k m)
          (allocate-first_free m left (k + 1) (record l { code = codes k }) (omega arith)
            (λ j below.
              subst (λ i. any (has_live_code (codes i)) db.links ≡ true) (sym (shift k j))
                (taken (suc j) (omega arith)))
            (subst (λ i. any (has_live_code (codes i)) db.links ≡ false) (sym (shift k m)) free))
    where
      shift : (n j : ℕ) → n + 1 + j ≡ n + suc j
      shift n j = omega arith

  -- If the inserts can fail only by a collision of codes, and every candidate of the budget is taken,
  -- `allocateGeneratedCode` ends with CodeExhausted and leaves the database as it was.
  pub allocate-exhausted :
      (left k : ℕ) (l : Link)
      → ((j : ℕ) → j < left → any (has_live_code (codes (k + j))) db.links ≡ true)
      → allocate_generated_code left k env l db ≡ (err code_exhausted, db)
  unfolding allocate_generated_code
  allocate-exhausted zero k l taken = refl
  allocate-exhausted (suc left) k l taken =
      allocate-again left k l (
        subst (λ i. any (has_live_code (codes i)) db.links ≡ true) (omega arith)
          (taken 0 (omega arith)))
      ∙ allocate-exhausted left (k + 1) (record l { code = codes k })
          (λ j below.
            subst (λ i. any (has_live_code (codes i)) db.links ≡ true) (omega arith)
              (taken (suc j) (omega arith)))
