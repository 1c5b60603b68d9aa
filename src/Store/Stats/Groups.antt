-- ===== src/Store/Stats/Groups.antt =====
-- Groups of rows: their totals, their order, and what LIMIT leaves out.
use go_link_shortener.Base.{
  ℕ, ◌+◌, ◌≡◌, ◌≤◌, ◌<◌, refl, Bool, false, List, [], ◌∷◌, Bytes, bytes_eq, bytes_eq_iff, ◌==◌,
  length, count, any, All, arith, if◌then◌else◌,
}
use go_link_shortener.Domain.Stats.{TimePoint, LabelCount}
use go_link_shortener.Store.Stats.{add_point, group_times, add_label, group_labels}

-- the total of the group of time `t`
abbrev pub total_at : ℕ → List TimePoint → ℕ
total_at t [] = 0
total_at t (p ∷ ps) = (if p.time == t then p.total else 0) + total_at t ps

abbrev pub sum_points : List TimePoint → ℕ
sum_points [] = 0
sum_points (p ∷ ps) = p.total + sum_points ps

abbrev pub StartsAfter : ℕ → List TimePoint → Type 0
StartsAfter t [] = Unit
StartsAfter t (p ∷ ps) = t < p.time

-- times strictly ascend
abbrev pub Ascending : List TimePoint → Type 0
Ascending [] = Unit
Ascending (p ∷ ps) = StartsAfter p.time ps × Ascending ps

total_at-add_point :
    (u t : ℕ) (ps : List TimePoint)
    → total_at u (add_point t ps) ≡ (if t == u then 1 else 0) + total_at u ps
unfolding add_point
total_at-add_point u t [] = ground arith
total_at-add_point u t (p ∷ ps) = ground (arith, total_at-add_point u t ps)

pub total_at-group_times :
    (u : ℕ) (ts : List ℕ) → total_at u (group_times ts) ≡ count (λ t. t == u) ts
unfolding group_times
total_at-group_times u [] = refl
total_at-group_times u (t ∷ ts) =
    omega (arith, total_at-add_point u t (group_times ts), total_at-group_times u ts)

sum_points-add_point :
    (t : ℕ) (ps : List TimePoint) → sum_points (add_point t ps) ≡ 1 + sum_points ps
unfolding add_point
sum_points-add_point t [] = ground arith
sum_points-add_point t (p ∷ ps) = ground (arith, sum_points-add_point t ps)

pub sum_points-group_times : (ts : List ℕ) → sum_points (group_times ts) ≡ length ts
unfolding group_times
sum_points-group_times [] = refl
sum_points-group_times (t ∷ ts) =
    omega (arith, sum_points-add_point t (group_times ts), sum_points-group_times ts)

add_point-StartsAfter :
    (s t : ℕ) (ps : List TimePoint) → s < t → StartsAfter s ps → StartsAfter s (add_point t ps)
unfolding add_point
add_point-StartsAfter s t [] lt h = lt
add_point-StartsAfter s t (p ∷ ps) lt h = ground arith

add_point-Ascending : (t : ℕ) (ps : List TimePoint) → Ascending ps → Ascending (add_point t ps)
unfolding add_point
add_point-Ascending t [] h = (tt, tt)
add_point-Ascending t (p ∷ ps) h =
    ground (arith, add_point-Ascending t ps, add_point-StartsAfter p.time t ps)

pub group_times-Ascending : (ts : List ℕ) → Ascending (group_times ts)
unfolding group_times
group_times-Ascending [] = tt
group_times-Ascending (t ∷ ts) = add_point-Ascending t (group_times ts) (group_times-Ascending ts)

-- the total of the group of a label
abbrev pub total_under : Bytes → List LabelCount → ℕ
total_under l [] = 0
total_under l (r ∷ rs) = (if bytes_eq r.label l then r.total else 0) + total_under l rs

abbrev pub has_label : Bytes → LabelCount → Bool
has_label l r = bytes_eq r.label l

abbrev pub LabelsDistinct : List LabelCount → Type 0
LabelsDistinct [] = Unit
LabelsDistinct (r ∷ rs) = (any (has_label r.label) rs ≡ false) × LabelsDistinct rs

-- totals descend
abbrev pub Descending : List LabelCount → Type 0
Descending [] = Unit
Descending (r ∷ rs) = All (λ s. s.total ≤ r.total) rs × Descending rs

total_under-add_label :
    (m l : Bytes) (rs : List LabelCount)
    → total_under m (add_label l rs) ≡ (if bytes_eq l m then 1 else 0) + total_under m rs
unfolding add_label
total_under-add_label m l [] = ground arith
total_under-add_label m l (r ∷ rs) =
    ground (arith, total_under-add_label m l rs, bytes_eq_iff r.label l)

pub total_under-group_labels :
    (m : Bytes) (ls : List Bytes) → total_under m (group_labels ls) ≡ count (λ l. bytes_eq l m) ls
unfolding group_labels
total_under-group_labels m [] = refl
total_under-group_labels m (l ∷ ls) =
    omega (arith, total_under-add_label m l (group_labels ls), total_under-group_labels m ls)

any-add_label :
    (m l : Bytes) (rs : List LabelCount)
    → bytes_eq l m ≡ false
    → any (has_label m) rs ≡ false
    → any (has_label m) (add_label l rs) ≡ false
unfolding add_label
any-add_label m l [] d h = ground arith
any-add_label m l (r ∷ rs) d h = ground (arith, any-add_label m l rs)

pub bytes_eq_comm : (a b : Bytes) → bytes_eq a b ≡ bytes_eq b a
bytes_eq_comm a b = ground (arith, bytes_eq_iff a b, bytes_eq_iff b a)

add_label-LabelsDistinct :
    (l : Bytes) (rs : List LabelCount) → LabelsDistinct rs → LabelsDistinct (add_label l rs)
unfolding add_label
add_label-LabelsDistinct l [] h = (refl, tt)
add_label-LabelsDistinct l (r ∷ rs) h =
    ground
      (arith, add_label-LabelsDistinct l rs, any-add_label r.label l rs, bytes_eq_comm r.label l)

pub group_labels-LabelsDistinct : (ls : List Bytes) → LabelsDistinct (group_labels ls)
unfolding group_labels
group_labels-LabelsDistinct [] = tt
group_labels-LabelsDistinct (l ∷ ls) =
    add_label-LabelsDistinct l (group_labels ls) (group_labels-LabelsDistinct ls)

add_label-total_pos :
    (l : Bytes) (rs : List LabelCount)
    → All (λ r. 1 ≤ r.total) rs
    → All (λ r. 1 ≤ r.total) (add_label l rs)
unfolding add_label
add_label-total_pos l [] h = (omega arith, tt)
add_label-total_pos l (r ∷ rs) h = ground (arith, add_label-total_pos l rs)

pub group_labels-total_pos : (ls : List Bytes) → All (λ r. 1 ≤ r.total) (group_labels ls)
unfolding group_labels
group_labels-total_pos [] = tt
group_labels-total_pos (l ∷ ls) =
    add_label-total_pos l (group_labels ls) (group_labels-total_pos ls)
