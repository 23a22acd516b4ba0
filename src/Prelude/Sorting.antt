-- ===== src/Prelude/Sorting.antt =====
-- `sort_by`, which is stable, as an insertion sort.
use mathlib.Core.Path.{◌≡◌, refl}
use mathlib.Core.Logic.{◌⊎◌, inl, inr}
use mathlib.Core.Bool.{Bool, true, false, not}
use mathlib.Core.List.{List, [], ◌∷◌}
use mathlib.Core.Path.{subst}
use native.Mathlib.Omega.{arith}
use sk_core.Prelude.Tests.{if◌then◌else◌}

module _ {ℓ} {A : Type ℓ} (before : A → A → Bool) where
  unfoldable pub insert_by : A → List A → List A
  insert_by x [] = x ∷ []
  insert_by x (y ∷ ys) = if before y x then y ∷ insert_by x ys else x ∷ y ∷ ys

  unfoldable pub sort_by : List A → List A
  unfolding insert_by
  sort_by [] = []
  sort_by (x ∷ xs) = insert_by x (sort_by xs)

  -- What is not above `a` stands below all that is.
  abbrev IsBetween : Type ℓ
  IsBetween = (a b c : A) → before a c ≡ true → before a b ≡ false → before b c ≡ true

  -- Two values are equal, or exactly one stands before the other.
  abbrev pub IsApart : A → A → Type ℓ
  IsApart x y = (before x y ≡ not (before y x)) ⊎ (x ≡ y)

  insert_apart :
      (x y : A) (ts : List A)
      → IsBetween
      → before x y ≡ not (before y x)
      → insert_by x (insert_by y ts) ≡ insert_by y (insert_by x ts)
  unfolding insert_by
  insert_apart x y [] between apart = ground arith
  insert_apart x y (t ∷ ts) between apart =
      ground (arith, between t x y, between t y x, insert_apart x y ts between apart)

  -- Where two values are inserted one after the other, their order does not matter.
  pub insert_by-insert_by :
      (x y : A) (ts : List A)
      → IsBetween
      → IsApart x y
      → insert_by x (insert_by y ts) ≡ insert_by y (insert_by x ts)
  insert_by-insert_by x y ts between (inl apart) = insert_apart x y ts between apart
  insert_by-insert_by x y ts between (inr e) =
      subst (λ z. insert_by x (insert_by z ts) ≡ insert_by z (insert_by x ts)) e refl
