-- ===== src/Base/Parts.antt =====
-- Tests, counts and lengths of lists that are put together from parts.
use Prim.Native.Nat.{suc, ◌+◌}
use mathlib.Core.Path.{◌≡◌, refl}
use mathlib.Core.Bool.{Bool, ◌&&◌, ◌||◌}
use mathlib.Core.List.{List, [], ◌∷◌, ◌++◌}
use native.Mathlib.Omega.{arith}
use go_link_shortener.Base.Tests.{if◌then◌else◌}
use go_link_shortener.Base.Lists.{length, any, all, count}

pub length-split {ℓ} :
    {A : Type ℓ} (before after : List A) (x : A)
    → length (before ++ (x ∷ after)) ≡ suc (length (before ++ after))
length-split [] after x = refl
length-split (y ∷ before) after x = ground (arith, length-split before after x)

module _ {ℓ} {A : Type ℓ} (p : A → Bool) where
  pub all-append : (xs ys : List A) → all p (xs ++ ys) ≡ (all p xs && all p ys)
  all-append [] ys = refl
  all-append (x ∷ xs) ys = ground (arith, all-append xs ys)

  pub all-split :
      (before after : List A) (x : A)
      → all p (before ++ (x ∷ after)) ≡ (p x && all p (before ++ after))
  all-split [] after x = refl
  all-split (y ∷ before) after x = ground (arith, all-split before after x)

  pub any-split :
      (before after : List A) (x : A)
      → any p (before ++ (x ∷ after)) ≡ (p x || any p (before ++ after))
  any-split [] after x = refl
  any-split (y ∷ before) after x = ground (arith, any-split before after x)

  pub count-append : (xs ys : List A) → count p (xs ++ ys) ≡ count p xs + count p ys
  count-append [] ys = omega arith
  count-append (x ∷ xs) ys = omega (arith, count-append xs ys)

  pub count-split :
      (before after : List A) (x : A)
      → count p (before ++ (x ∷ after)) ≡ (if p x then 1 else 0) + count p (before ++ after)
  count-split [] after x = refl
  count-split (y ∷ before) after x = ground (arith, count-split before after x)
