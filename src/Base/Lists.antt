-- ===== src/Base/Lists.antt =====
-- Lists measured by native numbers, searches and updates by a Boolean test.
use Prim.Native.Nat.{min, ℕ, zero, suc, ◌+◌, ◌≤◌}
use mathlib.Core.Path.{◌≡◌, refl, ap, ◌∙◌}
use mathlib.Core.Bool.{Bool, true, false, ◌&&◌, ◌||◌}
use mathlib.Core.List.{List, [], ◌∷◌, ◌++◌, map}
use mathlib.Core.Option.{Option, none, some}
use native.Mathlib.Omega.{arith}
use go_link_shortener.Base.Tests.{if◌then◌else◌}

module _ {ℓ} {A : Type ℓ} where
  abbrev pub length : List A → ℕ
  length [] = 0
  length (x ∷ xs) = suc (length xs)

  abbrev pub take : ℕ → List A → List A
  take zero xs = []
  take (suc n) [] = []
  take (suc n) (x ∷ xs) = x ∷ take n xs

  abbrev pub drop : ℕ → List A → List A
  drop zero xs = xs
  drop (suc n) [] = []
  drop (suc n) (x ∷ xs) = drop n xs

  -- The elements that pass the test.
  abbrev pub keep : (A → Bool) → List A → List A
  keep p [] = []
  keep p (x ∷ xs) = let rest = keep p xs in if p x then x ∷ rest else rest

  -- The first element that passes the test.
  abbrev pub find : (A → Bool) → List A → Option A
  find p [] = none
  find p (x ∷ xs) = if p x then some x else find p xs

  -- `f` at the elements that pass the test.
  abbrev pub change : (A → Bool) → (A → A) → List A → List A
  change p f [] = []
  change p f (x ∷ xs) = (if p x then f x else x) ∷ change p f xs

  abbrev pub any : (A → Bool) → List A → Bool
  any p [] = false
  any p (x ∷ xs) = p x || any p xs

  abbrev pub all : (A → Bool) → List A → Bool
  all p [] = true
  all p (x ∷ xs) = p x && all p xs

  abbrev pub count : (A → Bool) → List A → ℕ
  count p [] = 0
  count p (x ∷ xs) = (if p x then 1 else 0) + count p xs

module _ {ℓ κ} {A : Type ℓ} (P : A → Type κ) where
  abbrev pub All : List A → Type κ
  All [] = Unit
  All (x ∷ xs) = P x × All xs

module _ {ℓ} {A : Type ℓ} where
  pub length-append : (xs ys : List A) → length (xs ++ ys) ≡ length xs + length ys
  length-append [] ys = omega arith
  length-append (x ∷ xs) ys = omega (arith, length-append xs ys)

  pub length-keep-le : (p : A → Bool) (xs : List A) → length (keep p xs) ≤ length xs
  length-keep-le p [] = omega arith
  length-keep-le p (x ∷ xs) = ground (arith, length-keep-le p xs)

  pub count-eq-length-keep : (p : A → Bool) (xs : List A) → count p xs ≡ length (keep p xs)
  count-eq-length-keep p [] = refl
  count-eq-length-keep p (x ∷ xs) = ground (arith, count-eq-length-keep p xs)

  pub find-none-of-any : (p : A → Bool) (xs : List A) → any p xs ≡ false → find p xs ≡ none
  find-none-of-any p [] h = refl
  find-none-of-any p (x ∷ xs) h = ground (arith, find-none-of-any p xs)

  -- What `find` returns passes the test.
  pub find-holds : (p : A → Bool) (xs : List A) (a : A) → find p xs ≡ some a → p a ≡ true
  find-holds p (x ∷ xs) a h = ground (arith, find-holds p xs a)
  find-holds p [] a h = ground arith

module _ {ℓ} {A : Type ℓ} (p : A → Bool) (f : A → A) (q : A → Bool) where
  -- A test that `f` does not move is not moved by an update with `f`.
  pub any-change : ((x : A) → q (f x) ≡ q x) → (xs : List A) → any q (change p f xs) ≡ any q xs
  any-change h [] = refl
  any-change h (x ∷ xs) = ground (arith, h x, any-change h xs)

  pub any-change-false :
      ((x : A) → q x ≡ false → q (f x) ≡ false)
      → (xs : List A) → any q xs ≡ false
      → any q (change p f xs) ≡ false
  any-change-false h [] e = refl
  any-change-false h (x ∷ xs) e = ground (arith, h x, any-change-false h xs)

  pub find-change_ne :
      ((x : A) → p x ≡ true → q x ≡ false)
      → ((x : A) → p x ≡ true → q (f x) ≡ false)
      → (xs : List A) → find q (change p f xs) ≡ find q xs
  find-change_ne h k [] = refl
  find-change_ne h k (x ∷ xs) = ground (arith, h x, k x, find-change_ne h k xs)

module _ {ℓ} {A : Type ℓ} (p q : A → Bool) where
  pub any-keep-false : (xs : List A) → any q xs ≡ false → any q (keep p xs) ≡ false
  any-keep-false [] e = refl
  any-keep-false (x ∷ xs) e = ground (arith, any-keep-false xs)

  pub keep-keep :
      ((x : A) → q x ≡ true → p x ≡ true) → (xs : List A) → keep q (keep p xs) ≡ keep q xs
  keep-keep h [] = refl
  keep-keep h (x ∷ xs) = ground (arith, h x, keep-keep h xs)

  pub count-keep :
      ((x : A) → q x ≡ true → p x ≡ true) → (xs : List A) → count q (keep p xs) ≡ count q xs
  count-keep h [] = refl
  count-keep h (x ∷ xs) = ground (arith, h x, count-keep h xs)

  pub find-keep :
      ((x : A) → q x ≡ true → p x ≡ true) → (xs : List A) → find q (keep p xs) ≡ find q xs
  find-keep h [] = refl
  find-keep h (x ∷ xs) = ground (arith, h x, find-keep h xs)

module _ {ℓ} {A : Type ℓ} (p : A → Bool) (f : A → A) (q : A → Bool) where
  -- An update that touches no element on which the test holds, before or after, is not seen by it.
  pub find-change_disjoint :
      (xs : List A)
      → any (λ x. p x && (q x || q (f x))) xs ≡ false
      → find q (change p f xs) ≡ find q xs
  find-change_disjoint [] e = refl
  find-change_disjoint (x ∷ xs) e = ground (arith, find-change_disjoint xs)

module _ {ℓ} {A : Type ℓ} (p q : A → Bool) where
  pub any-mono_false :
      ((x : A) → q x ≡ true → p x ≡ true) → (xs : List A) → any p xs ≡ false → any q xs ≡ false
  any-mono_false h [] e = refl
  any-mono_false h (x ∷ xs) e = ground (arith, h x, any-mono_false h xs)

module _ {ℓ} {A : Type ℓ} where
  pub length-take : (n : ℕ) (xs : List A) → length (take n xs) ≡ min n (length xs)
  length-take zero xs = omega arith
  length-take (suc n) [] = omega arith
  length-take (suc n) (x ∷ xs) = omega (arith, length-take n xs)

  pub take_all : (n : ℕ) (xs : List A) → length xs ≤ n → take n xs ≡ xs
  take_all zero [] h = refl
  take_all zero (x ∷ xs) h = absurd (omega arith)
  take_all (suc n) [] h = refl
  take_all (suc n) (x ∷ xs) h = ap (λ t. x ∷ t) (take_all n xs (omega arith))

  pub take-append_full : (n : ℕ) (xs ys : List A) → n ≤ length xs → take n (xs ++ ys) ≡ take n xs
  take-append_full zero xs ys h = refl
  take-append_full (suc n) [] ys h = absurd (omega arith)
  take-append_full (suc n) (x ∷ xs) ys h = ap (λ t. x ∷ t) (take-append_full n xs ys (omega arith))

  pub take-full : (n : ℕ) (xs ys : List A) → length xs ≡ n → take n (xs ++ ys) ≡ xs
  take-full n xs ys full = take-append_full n xs ys (omega arith) ∙ take_all n xs (omega arith)

  pub append-cons : (xs ys : List A) (a : A) → (xs ++ (a ∷ [])) ++ ys ≡ xs ++ (a ∷ ys)
  append-cons [] ys a = refl
  append-cons (x ∷ xs) ys a = ap (λ t. x ∷ t) (append-cons xs ys a)

  pub append_nil : (xs : List A) → xs ++ [] ≡ xs
  append_nil [] = refl
  append_nil (x ∷ xs) = ap (λ t. x ∷ t) (append_nil xs)

  pub take-append-drop : (n : ℕ) (xs : List A) → take n xs ++ drop n xs ≡ xs
  take-append-drop zero xs = refl
  take-append-drop (suc n) [] = refl
  take-append-drop (suc n) (x ∷ xs) = ap (λ t. x ∷ t) (take-append-drop n xs)

  -- Cutting the first part early changes nothing.
  pub take-take-append : (n : ℕ) (xs ys : List A) → take n (take n xs ++ ys) ≡ take n (xs ++ ys)
  take-take-append zero xs ys = refl
  take-take-append (suc n) [] ys = refl
  take-take-append (suc n) (x ∷ xs) ys = ap (λ t. x ∷ t) (take-take-append n xs ys)

module _ {ℓ} {A : Type ℓ} (p : A → Bool) (f : A → A) (q : A → Bool) where
  -- A test that `f` does not move finds the same element, updated.
  pub find-change :
      ((x : A) → q (f x) ≡ q x)
      → (xs : List A) (a : A) → find q xs ≡ some a
      → find q (change p f xs) ≡ some (if p a then f a else a)
  find-change h [] a e = ground arith
  find-change h (x ∷ xs) a e = ground (arith, h x, find-change h xs a)

module _ {ℓ} {A : Type ℓ} (p : A → Bool) where
  pub any-append : (xs ys : List A) → any p (xs ++ ys) ≡ any p xs || any p ys
  any-append [] ys = refl
  any-append (x ∷ xs) ys = ground (arith, any-append xs ys)

pub any-of-find {ℓ} :
    {A : Type ℓ} (p : A → Bool) (xs : List A) (x : A) → find p xs ≡ some x → any p xs ≡ true
any-of-find p [] x h = ground arith
any-of-find p (y ∷ xs) x h = ground (arith, any-of-find p xs x)

pub length-map {ℓ κ} :
    {A : Type ℓ} → {B : Type κ} → (f : A → B) (xs : List A) → length (map f xs) ≡ length xs
length-map f [] = refl
length-map f (x ∷ xs) = ap (λ n. suc n) (length-map f xs)

pub any-false-of-find {ℓ} :
    {A : Type ℓ} (p : A → Bool) (xs : List A) → find p xs ≡ none → any p xs ≡ false
any-false-of-find p [] h = refl
any-false-of-find p (x ∷ xs) h = ground (arith, any-false-of-find p xs)
