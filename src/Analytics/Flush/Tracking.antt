-- ===== src/Analytics/Flush/Tracking.antt =====
-- The live row of a code while `RecordBatch` counts clicks.
use go_link_shortener.Base.{
  ==_iff, ==_refl, any-of-find, ℕ, ◌≡◌, refl, ap, sym, ◌∙◌, Bool, true, false, ◌||◌, some, List, [],
  ◌∷◌, ◌++◌, Bytes, bytes_eq, bytes_eq_iff, one_of, find, change, any-append, find-change,
  find-holds, arith, ◌⊎◌, inl, inr, Bool-cases, if◌then◌else◌,
}
use go_link_shortener.Domain.Link.{Link, is_exhausted}
use go_link_shortener.Store.Db.{is_live, has_id, has_live_code}
use go_link_shortener.Store.Clicks.{counted, increment, exhausted_code}
use go_link_shortener.Store.Integrity.{IdsDistinct, change-IdsDistinct, any-has_id-eq}
use go_link_shortener.Service.Redirect.Agreement.{serve}

-- `b` is `a` after some clicks.
pub record IsClicked (a b : Link) : Type 0 where
  pub same : serve a ≡ serve b
  pub expiry : a.expires_at ≡ b.expires_at
  pub deleted : a.deleted_at ≡ b.deleted_at

own_id :
    (q : Link → Bool) (rs : List Link) (r : Link)
    → IdsDistinct rs
    → find q rs ≡ some r
    → find (has_id r.id) rs ≡ some r
own_id q [] r d e = ground arith
own_id q (x ∷ rs) r d e =
    ground (
      arith,
      own_id q rs r,
      any-of-find (has_id r.id) rs r,
      any-has_id-eq x.id r.id rs,
      ==_refl x.id,
    )

-- The row `b` that stands for `a`: as exhausted as before, or its code is to be evicted.
pub record IsTracked (code : Bytes) (codes : List Bytes) (a b : Link) : Type 0 where
  pub clicked : IsClicked a b
  pub noted : (is_exhausted b ≡ is_exhausted a) ⊎ (one_of codes code ≡ true)

clicked_row : ℕ → ℕ → ℕ → Link → Link
clicked_row now id n r = if has_id id r then counted now n r else r

has_live_code-counted :
    (code : Bytes) (now n : ℕ) (r : Link)
    → has_live_code code (counted now n r) ≡ has_live_code code r
unfolding counted is_live
has_live_code-counted code now n r = refl

-- More clicks never undo exhaustion.
exhausted_mono :
    (now n : ℕ) (r : Link) → is_exhausted r ≡ true → is_exhausted (counted now n r) ≡ true
unfolding is_exhausted counted
exhausted_mono now n r h = ground arith

coded :
    (code : Bytes) (r : Link) (rs : List Link)
    → find (has_live_code code) rs ≡ some r
    → one_of (r.code ∷ []) code ≡ true
coded code r rs e = ground (
  arith,
  find-holds (has_live_code code) rs r,
  bytes_eq_iff r.code code,
  bytes_eq_iff code r.code,
)

not_before :
    (now n : ℕ) (r : Link) → is_exhausted (counted now n r) ≡ false → is_exhausted r ≡ false
not_before now n r h = ground (arith, exhausted_mono now n r)

clicked_row_after :
    (now id n : ℕ) (q : Link → Bool) (r : Link) (rs : List Link)
    → IdsDistinct rs
    → find q rs ≡ some r
    → has_id id r ≡ true
    → find (has_id id) (change (has_id id) (counted now n) rs) ≡ some (counted now n r)
unfolding counted
clicked_row_after now id n q r rs d e hit =
    find-change (has_id id) (counted now n) (has_id id) (λ x. refl) rs r
      (ap (λ i. find (has_id i) rs) (sym ((==_iff r.id id).0 hit)) ∙ own_id q rs r d e)
    ∙ rw hit

clicked-IsTracked :
    (now id n : ℕ) (code : Bytes) (r : Link) (rs : List Link)
    → IdsDistinct rs
    → find (has_live_code code) rs ≡ some r
    → has_id id r ≡ true
    → IsTracked code
        (exhausted_code (find (has_id id) (change (has_id id) (counted now n) rs)))
        r
        (counted now n r)
unfolding exhausted_code
clicked-IsTracked now id n code r rs d e hit =
    rw (clicked_row_after now id n (has_live_code code) r rs d e hit) (record {
      clicked = unfold counted in record { same = refl; expiry = refl; deleted = refl };
      noted = elim (Bool-cases (is_exhausted (counted now n r))) [
        | inl full ↦ inr (rw full (unfold counted in coded code r rs e))
        | inr open_still ↦ inl (open_still ∙ sym (not_before now n r open_still))
      ];
    })

clicked_row-IsTracked :
    (now id n : ℕ) (code : Bytes) (r : Link) (rs : List Link)
    → IdsDistinct rs
    → find (has_live_code code) rs ≡ some r
    → IsTracked code
        (exhausted_code (find (has_id id) (change (has_id id) (counted now n) rs)))
        r
        (clicked_row now id n r)
unfolding clicked_row
clicked_row-IsTracked now id n code r rs d e = elim (Bool-cases (has_id id r)) [
  | inl hit ↦ rw hit (clicked-IsTracked now id n code r rs d e hit)
  | inr other ↦
      rw other (record {
        clicked = record { same = refl; expiry = refl; deleted = refl };
        noted = inl refl;
      })
]

one_of-append : (xs ys : List Bytes) (c : Bytes) → one_of (xs ++ ys) c ≡ one_of xs c || one_of ys c
one_of-append xs ys c = any-append (bytes_eq c) xs ys

IsTracked-trans :
    (code : Bytes) (xs ys : List Bytes) {a b c : Link}
    → IsTracked code xs a b
    → IsTracked code ys b c
    → IsTracked code (xs ++ ys) a c
IsTracked-trans code xs ys h k = record {
  clicked = ground (arith, h.clicked, k.clicked);
  noted = ground (arith, h.noted, k.noted, one_of-append xs ys code);
}

find-clicked_row :
    (now id n : ℕ) (code : Bytes) (r : Link) (rs : List Link)
    → find (has_live_code code) rs ≡ some r
    → find (has_live_code code) (change (has_id id) (counted now n) rs)
      ≡ some (clicked_row now id n r)
unfolding clicked_row
find-clicked_row now id n code r rs e =
    find-change (has_id id) (counted now n) (has_live_code code) (has_live_code-counted code now n)
      rs r e

same_id : (now n : ℕ) (r : Link) → (counted now n r).id ≡ r.id
unfolding counted
same_id now n r = refl

-- The live row of a code after the loop over the counts.
pub increment-IsTracked :
    (now : ℕ) (counts : List (ℕ × ℕ)) (code : Bytes) (r : Link) (rs : List Link)
    → IdsDistinct rs
    → find (has_live_code code) rs ≡ some r
    → (b : Link) × (find (has_live_code code) (increment now counts rs).1 ≡ some b)
      × IsTracked code (increment now counts rs).0 r b
unfolding increment
increment-IsTracked now [] code r rs d e = (
  r,
  e,
  record { clicked = record { same = refl; expiry = refl; deleted = refl }; noted = inl refl },
)
increment-IsTracked now ((id, n) ∷ rest) code r rs d e =
    let (b, row, tracked) =
      increment-IsTracked now rest code (clicked_row now id n r) _
        (change-IdsDistinct (has_id id) (counted now n) (same_id now n) rs d)
        (find-clicked_row now id n code r rs e) in
    (b, row, IsTracked-trans code _ _ (clicked_row-IsTracked now id n code r rs d e) tracked)
