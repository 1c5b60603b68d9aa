-- ===== src/Store/Stats/Ranking.antt =====
-- `ORDER BY n DESC, label LIMIT`: the listed groups are the largest ones.
use go_link_shortener.Base.{
  ℕ, ◌≡◌, ◌≤◌, refl, ap, sym, ◌∙◌, subst, Bool, false, List, [], ◌∷◌, ◌++◌, Bytes, bytes_eq, length,
  drop, count, any, All, arith, take-append-drop, length-take,
}
use Prim.Native.Nat.{min}
use go_link_shortener.Domain.Stats.{LabelCount}
use go_link_shortener.Store.Stats.{group_labels, insert_ranked, ranked, top_labels}
use go_link_shortener.Store.Stats.Groups.{
  total_under, has_label, LabelsDistinct, Descending, total_under-group_labels, bytes_eq_comm,
  group_labels-LabelsDistinct, group_labels-total_pos,
}

-- The rows of `top` are the first `limit` of a list of distinct labels with descending totals that
-- gives each label its total.
abbrev pub IsTopOf : (Bytes → ℕ) → ℕ → List LabelCount → Type 0
IsTopOf counted limit top =
    (rest : List LabelCount) × LabelsDistinct (top ++ rest)
    × Descending (top ++ rest)
    × All (λ r. 1 ≤ r.total) (top ++ rest)
    × ((l : Bytes) → total_under l (top ++ rest) ≡ counted l)
    × (length top ≡ min limit (length (top ++ rest)))

module _ (collate : Bytes → Bytes → Bool) where
  insert_ranked-All :
      (P : LabelCount → Type 0) (a : LabelCount) (rs : List LabelCount)
      → P a
      → All P rs
      → All P (insert_ranked collate a rs)
  unfolding insert_ranked
  insert_ranked-All P a [] pa h = (pa, tt)
  insert_ranked-All P a (r ∷ rs) pa h = ground (arith, insert_ranked-All P a rs)

  ranked-All :
      (P : LabelCount → Type 0) (rs : List LabelCount) → All P rs → All P (ranked collate rs)
  unfolding ranked
  ranked-All P [] h = tt
  ranked-All P (r ∷ rs) h = insert_ranked-All P r (ranked collate rs) h.0 (ranked-All P rs h.1)

  All-le_trans :
      (m n : ℕ) (rs : List LabelCount)
      → m ≤ n
      → All (λ s. s.total ≤ m) rs
      → All (λ s. s.total ≤ n) rs
  All-le_trans m n [] le h = tt
  All-le_trans m n (r ∷ rs) le h = (omega arith, All-le_trans m n rs le h.1)

  insert_ranked-Descending :
      (a : LabelCount) (rs : List LabelCount)
      → Descending rs
      → Descending (insert_ranked collate a rs)
  unfolding insert_ranked
  insert_ranked-Descending a [] h = (tt, tt)
  insert_ranked-Descending a (r ∷ rs) h = ground (
    arith,
    insert_ranked-Descending a rs,
    All-le_trans r.total a.total rs,
    insert_ranked-All (λ s. s.total ≤ r.total) a rs,
  )

  ranked-Descending : (rs : List LabelCount) → Descending (ranked collate rs)
  unfolding ranked
  ranked-Descending [] = tt
  ranked-Descending (r ∷ rs) = insert_ranked-Descending r (ranked collate rs) (ranked-Descending rs)

  total_under-insert_ranked :
      (l : Bytes) (a : LabelCount) (rs : List LabelCount)
      → total_under l (insert_ranked collate a rs) ≡ total_under l (a ∷ rs)
  unfolding insert_ranked
  total_under-insert_ranked l a [] = refl
  total_under-insert_ranked l a (r ∷ rs) = ground (arith, total_under-insert_ranked l a rs)

  total_under-ranked :
      (l : Bytes) (rs : List LabelCount) → total_under l (ranked collate rs) ≡ total_under l rs
  unfolding ranked
  total_under-ranked l [] = refl
  total_under-ranked l (r ∷ rs) =
      omega (arith, total_under-insert_ranked l r (ranked collate rs), total_under-ranked l rs)

  any-insert_ranked :
      (m : Bytes) (a : LabelCount) (rs : List LabelCount)
      → any (has_label m) (insert_ranked collate a rs) ≡ any (has_label m) (a ∷ rs)
  unfolding insert_ranked
  any-insert_ranked m a [] = refl
  any-insert_ranked m a (r ∷ rs) = ground (arith, any-insert_ranked m a rs)

  any-ranked :
      (m : Bytes) (rs : List LabelCount)
      → any (has_label m) (ranked collate rs) ≡ any (has_label m) rs
  unfolding ranked
  any-ranked m [] = refl
  any-ranked m (r ∷ rs) = ground (arith, any-insert_ranked m r (ranked collate rs), any-ranked m rs)

  insert_ranked-LabelsDistinct :
      (a : LabelCount) (rs : List LabelCount)
      → any (has_label a.label) rs ≡ false
      → LabelsDistinct rs
      → LabelsDistinct (insert_ranked collate a rs)
  unfolding insert_ranked
  insert_ranked-LabelsDistinct a [] n h = (refl, tt)
  insert_ranked-LabelsDistinct a (r ∷ rs) n h = ground (
    arith,
    insert_ranked-LabelsDistinct a rs,
    any-insert_ranked r.label a rs,
    bytes_eq_comm a.label r.label,
  )

  ranked-LabelsDistinct :
      (rs : List LabelCount) → LabelsDistinct rs → LabelsDistinct (ranked collate rs)
  unfolding ranked
  ranked-LabelsDistinct [] h = tt
  ranked-LabelsDistinct (r ∷ rs) h =
      insert_ranked-LabelsDistinct r (ranked collate rs) (any-ranked r.label rs ∙ h.0)
        (ranked-LabelsDistinct rs h.1)

  -- The top labels of a list are the most frequent ones.
  pub top_labels-IsTopOf :
      (limit : ℕ) (labels : List Bytes)
      → IsTopOf (λ l. count (λ m. bytes_eq m l) labels) limit (top_labels collate limit labels)
  top_labels-IsTopOf limit labels =
      let groups = group_labels labels in
      let rows = ranked collate groups in
      let whole = sym (take-append-drop limit rows) in
      (
        drop limit rows,
        subst LabelsDistinct whole
            (ranked-LabelsDistinct groups (group_labels-LabelsDistinct labels)),
        subst Descending whole (ranked-Descending groups),
        subst (All (λ r. 1 ≤ r.total)) whole
            (ranked-All (λ r. 1 ≤ r.total) groups (group_labels-total_pos labels)),
        λ l.
            sym (ap (total_under l) whole)
            ∙ total_under-ranked l groups
            ∙ total_under-group_labels l labels,
        length-take limit rows ∙ ap (λ t. min limit (length t)) whole,
      )
