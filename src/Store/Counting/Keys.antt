-- ===== src/Store/Counting/Keys.antt =====
-- The counts of a batch as a map: its keys are distinct, and its order does not matter.
use go_link_shortener.Base.{
  ℕ, ◌≡◌, refl, ap, ◌∙◌, ==_comm, Bool, true, false, ◌&&◌, ◌||◌, not, List, [], ◌∷◌, ◌==◌, arith,
}
use mathlib.Core.List.{Perm, Permᴰ}
use mathlib.Core.Logic.{∥∥₁_elim}
use native.Mathlib.Nat.{ℕ_set}
use go_link_shortener.Store.Db.{Click}
use go_link_shortener.Store.Clicks.{tally_one, tally}
use go_link_shortener.Store.Counting.{total}

-- whether a link is a key of the map
abbrev pub has_key : ℕ → List (ℕ × ℕ) → Bool
has_key id [] = false
has_key id ((j, n) ∷ rest) = j == id || has_key id rest

abbrev pub keys_distinct : List (ℕ × ℕ) → Bool
keys_distinct [] = true
keys_distinct ((j, n) ∷ rest) = not (has_key j rest) && keys_distinct rest

pub total-has_key : (id : ℕ) (rest : List (ℕ × ℕ)) → has_key id rest ≡ false → total id rest ≡ 0
total-has_key id [] h = refl
total-has_key id ((j, n) ∷ rest) h = ground (arith, total-has_key id rest)

total-Permᴰ : (id : ℕ) {xs ys : List (ℕ × ℕ)} → Permᴰ xs ys → total id xs ≡ total id ys
total-Permᴰ id Permᴰ.nil = refl
total-Permᴰ id (Permᴰ.cons {a} {b} {l₁} {l₂} e d) =
    ap (λ c. total id (c ∷ l₁)) e ∙ ground (arith, total-Permᴰ id d)
total-Permᴰ id (Permᴰ.swap {a} {b} {a'} {b'} {l} e f) =
    ap (λ c. total id (c ∷ b ∷ l)) e ∙ ap (λ c. total id (b' ∷ c ∷ l)) f ∙ omega arith
total-Permᴰ id (Permᴰ.trans d e) = total-Permᴰ id d ∙ total-Permᴰ id e

has_key-Permᴰ : (id : ℕ) {xs ys : List (ℕ × ℕ)} → Permᴰ xs ys → has_key id xs ≡ has_key id ys
has_key-Permᴰ id Permᴰ.nil = refl
has_key-Permᴰ id (Permᴰ.cons {a} {b} {l₁} {l₂} e d) =
    ap (λ c. has_key id (c ∷ l₁)) e ∙ ground (arith, has_key-Permᴰ id d)
has_key-Permᴰ id (Permᴰ.swap {a} {b} {a'} {b'} {l} e f) =
    ap (λ c. has_key id (c ∷ b ∷ l)) e ∙ ap (λ c. has_key id (b' ∷ c ∷ l)) f ∙ ground arith
has_key-Permᴰ id (Permᴰ.trans d e) = has_key-Permᴰ id d ∙ has_key-Permᴰ id e

pub total-Perm : (id : ℕ) {xs ys : List (ℕ × ℕ)} → Perm xs ys → total id xs ≡ total id ys
total-Perm id p = ∥∥₁_elim p (ℕ_set _ _) (total-Permᴰ id)

pub has_key-Perm : (id : ℕ) {xs ys : List (ℕ × ℕ)} → Perm xs ys → has_key id xs ≡ has_key id ys
has_key-Perm id p = ∥∥₁_elim p (hlevel) (has_key-Permᴰ id)

keys_distinct-Permᴰ : {xs ys : List (ℕ × ℕ)} → Permᴰ xs ys → keys_distinct xs ≡ keys_distinct ys
keys_distinct-Permᴰ Permᴰ.nil = refl
keys_distinct-Permᴰ (Permᴰ.cons {a} {b} {l₁} {l₂} e d) =
    ap (λ c. keys_distinct (c ∷ l₁)) e ∙ ground (arith, has_key-Permᴰ b.0 d, keys_distinct-Permᴰ d)
keys_distinct-Permᴰ (Permᴰ.swap {a} {b} {a'} {b'} {l} e f) =
    ap (λ c. keys_distinct (c ∷ b ∷ l)) e
    ∙ ap (λ c. keys_distinct (b' ∷ c ∷ l)) f
    ∙ ground (arith, ==_comm a'.0 b'.0)
keys_distinct-Permᴰ (Permᴰ.trans d e) = keys_distinct-Permᴰ d ∙ keys_distinct-Permᴰ e

pub keys_distinct-Perm : {xs ys : List (ℕ × ℕ)} → Perm xs ys → keys_distinct xs ≡ keys_distinct ys
keys_distinct-Perm p = ∥∥₁_elim p (hlevel) keys_distinct-Permᴰ

has_key-tally_one :
    (id k : ℕ) (counts : List (ℕ × ℕ))
    → has_key id (tally_one k counts) ≡ (k == id || has_key id counts)
unfolding tally_one
has_key-tally_one id k [] = ground arith
has_key-tally_one id k ((j, n) ∷ rest) = ground (arith, has_key-tally_one id k rest)

keys_distinct-tally_one :
    (k : ℕ) (counts : List (ℕ × ℕ))
    → keys_distinct counts ≡ true
    → keys_distinct (tally_one k counts) ≡ true
unfolding tally_one
keys_distinct-tally_one k [] h = refl
keys_distinct-tally_one k ((j, n) ∷ rest) h =
    ground (arith, keys_distinct-tally_one k rest, has_key-tally_one j k rest, ==_comm j k)

pub keys_distinct-tally :
    (counts : List (ℕ × ℕ)) (cs : List Click)
    → keys_distinct counts ≡ true
    → keys_distinct (tally counts cs) ≡ true
unfolding tally
keys_distinct-tally counts [] h = h
keys_distinct-tally counts (c ∷ cs) h =
    keys_distinct-tally (tally_one c.link_id counts) cs (keys_distinct-tally_one c.link_id counts h)
