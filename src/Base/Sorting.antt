-- ===== src/Base/Sorting.antt =====
-- Stable sorting, as `sorted` and an ORDER BY that ends with the id of the row do it: `before` says
-- that the first row comes strictly before the second.
use Prim.Native.Nat.{suc}
use mathlib.Core.Path.{◌≡◌, refl}
use mathlib.Core.Logic.{inl, inr}
use mathlib.Core.Bool.{Bool, true, false}
use mathlib.Core.List.{List, [], ◌∷◌}
use native.Mathlib.Omega.{arith}
use bandcamp_curate.Base.Tests.{if◌then◌else◌, Bool-cases}
use bandcamp_curate.Base.Lists.{length, count_rows}

module _ {A : Type 0} where
  unfoldable pub place : (A → A → Bool) → A → List A → List A
  place before x [] = x ∷ []
  place before x (y ∷ ys) =
      let rest = place before x ys in if before y x then y ∷ rest else x ∷ y ∷ ys

  unfoldable pub sort_rows : (A → A → Bool) → List A → List A
  unfolding place
  sort_rows before [] = []
  sort_rows before (x ∷ xs) = place before x (sort_rows before xs)

  -- No row comes before the one in front of it.
  unfoldable pub IsOrdered : (A → A → Bool) → List A → Type 0
  IsOrdered before [] = Unit
  IsOrdered before (x ∷ []) = Unit
  IsOrdered before (x ∷ y ∷ ys) = (before y x ≡ false) × IsOrdered before (y ∷ ys)

  length-place :
      (before : A → A → Bool) (x : A) (ys : List A) → length (place before x ys) ≡ suc (length ys)
  unfolding place
  length-place before x [] = refl
  length-place before x (y ∷ ys) = ground (arith, length-place before x ys)

  pub length-sort_rows :
      (before : A → A → Bool) (xs : List A) → length (sort_rows before xs) ≡ length xs
  unfolding sort_rows
  length-sort_rows before [] = refl
  length-sort_rows before (x ∷ xs) =
      omega (arith, length-place before x (sort_rows before xs), length-sort_rows before xs)

  count_rows-place :
      (before : A → A → Bool) (test : A → Bool) (x : A) (ys : List A)
      → count_rows test (place before x ys) ≡ count_rows test (x ∷ ys)
  unfolding place
  count_rows-place before test x [] = refl
  count_rows-place before test x (y ∷ ys) = ground (arith, count_rows-place before test x ys)

  pub count_rows-sort_rows :
      (before : A → A → Bool) (test : A → Bool) (xs : List A)
      → count_rows test (sort_rows before xs) ≡ count_rows test xs
  unfolding sort_rows
  count_rows-sort_rows before test [] = refl
  count_rows-sort_rows before test (x ∷ xs) = ground (
    arith,
    count_rows-place before test x (sort_rows before xs),
    count_rows-sort_rows before test xs,
  )

  module _ (before : A → A → Bool) (asym : (x y : A) → before x y ≡ true → before y x ≡ false) where
    place-IsOrdered :
        (x : A) (ys : List A) → IsOrdered before ys → IsOrdered before (place before x ys)
    unfolding IsOrdered place
    place-IsOrdered x [] h = tt
    place-IsOrdered x (y ∷ []) h = elim (Bool-cases (before y x)) [
      | inl e ↦ rw e (asym y x e, tt)
      | inr e ↦ rw e (e, tt)
    ]
    place-IsOrdered x (y ∷ z ∷ ys) h = elim (Bool-cases (before y x)) [
      | inl e ↦ elim (Bool-cases (before z x)) [
        | inl f ↦ rw (e, f) (h.0, rw f at (place-IsOrdered x (z ∷ ys) h.1))
        | inr f ↦ rw (e, f) (asym y x e, (f, h.1))
      ]
      | inr e ↦ rw e (e, h)
    ]

    pub sort_rows-IsOrdered : (xs : List A) → IsOrdered before (sort_rows before xs)
    unfolding IsOrdered sort_rows
    sort_rows-IsOrdered [] = tt
    sort_rows-IsOrdered (x ∷ xs) = place-IsOrdered x (sort_rows before xs) (sort_rows-IsOrdered xs)
