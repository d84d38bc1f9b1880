-- ===== src/Base/Sort.antt =====
-- Python's `sorted` on texts, and on pairs by a text: insertion sort by code points.
use skivolve.Base.Tests.{ltb, if◌then◌else◌, nat_eq, ◌==◌}
use skivolve.Base.Lists.{count_if}
use skivolve.Base.Text.{codes}
use Prim.Native.Nat.{ℕ}
use Prim.Native.String.{String}
use mathlib.Core.Path.{◌≡◌, refl}
use mathlib.Core.Bool.{Bool, true, false, ◌&&◌, ◌||◌}
use mathlib.Core.List.{List, [], ◌∷◌}
use native.Mathlib.Omega.{arith}

codes_lt : List ℕ → List ℕ → Bool
codes_lt [] [] = false
codes_lt [] (_ ∷ _) = true
codes_lt (_ ∷ _) [] = false
codes_lt (a ∷ cs) (b ∷ ds) = ltb a b || a == b && codes_lt cs ds

-- `s < t`
unfoldable pub text_lt : String → String → Bool
unfolding codes codes_lt
text_lt s t = codes_lt (codes s) (codes t)

module _ {ℓ} {A : Type ℓ} (before : A → A → Bool) where
  unfoldable pub place : A → List A → List A
  place a [] = a ∷ []
  place a (x ∷ xs) = if before x a then x ∷ place a xs else a ∷ x ∷ xs

  unfoldable pub sort : List A → List A
  unfolding place
  sort [] = []
  sort (x ∷ xs) = place x (sort xs)

  count_if-place :
      (p : A → Bool) (a : A) (xs : List A) → count_if p (place a xs) ≡ count_if p (a ∷ xs)
  unfolding place
  count_if-place p a [] = refl
  count_if-place p a (x ∷ xs) = ground (arith, count_if-place p a xs)

  -- Sorting keeps every element as often as it is there.
  pub count_if-sort : (p : A → Bool) (xs : List A) → count_if p (sort xs) ≡ count_if p xs
  unfolding sort
  count_if-sort p [] = refl
  count_if-sort p (x ∷ xs) = ground (arith, count_if-place p x (sort xs), count_if-sort p xs)
