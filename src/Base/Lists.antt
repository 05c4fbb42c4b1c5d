-- ===== src/Base/Lists.antt =====
-- Lists measured by native numbers, and the queries that the program makes of its tables.
use Prim.Native.Nat.{ℕ, zero, suc, ◌+◌}
use mathlib.Core.Path.{◌≡◌, refl}
use mathlib.Core.Bool.{Bool, true, false, ◌||◌}
use mathlib.Core.List.{List, [], ◌∷◌, ◌++◌}
use mathlib.Core.Option.{Option, none, some}
use native.Mathlib.Omega.{arith}
use mathlib.Core.Logic.{inl, inr}
use Prim.Native.Nat.{◌≤◌}
use bandcamp_curate.Base.Tests.{if◌then◌else◌, ◌==◌, Bool-cases}

module _ {ℓ} {A : Type ℓ} where
  abbrev pub length : List A → ℕ
  length [] = 0
  length (x ∷ xs) = suc (length xs)

  abbrev pub take : ℕ → List A → List A
  take zero xs = []
  take (suc n) [] = []
  take (suc n) (x ∷ xs) = x ∷ take n xs

  -- `SELECT … WHERE test`, in the order of the table.
  abbrev pub where_rows : (A → Bool) → List A → List A
  where_rows test [] = []
  where_rows test (x ∷ xs) = let rest = where_rows test xs in if test x then x ∷ rest else rest

  -- The first row that passes.
  abbrev pub find : (A → Bool) → List A → Option A
  find test [] = none
  find test (x ∷ xs) = let rest = find test xs in if test x then some x else rest

  abbrev pub any : (A → Bool) → List A → Bool
  any test [] = false
  any test (x ∷ xs) = test x || any test xs

  -- `SELECT count(*) … WHERE test`.
  abbrev pub count_rows : (A → Bool) → List A → ℕ
  count_rows test [] = 0
  count_rows test (x ∷ xs) = let rest = count_rows test xs in if test x then suc rest else rest

  abbrev pub All {κ} : (A → Type κ) → List A → Type κ
  All P [] = Unit
  All P (x ∷ xs) = P x × All P xs

  pub All-append {κ} : (P : A → Type κ) (xs ys : List A) → All P xs → All P ys → All P (xs ++ ys)
  All-append P [] ys hx hy = hy
  All-append P (x ∷ xs) ys hx hy = (hx.0, All-append P xs ys hx.1 hy)

  pub All-weaken {κ μ} :
      (P : A → Type κ) (Q : A → Type μ)
      → ((x : A) → P x → Q x)
      → (xs : List A) → All P xs
      → All Q xs
  All-weaken P Q f [] h = tt
  All-weaken P Q f (x ∷ xs) h = (f x h.0, All-weaken P Q f xs h.1)

  pub length-append : (xs ys : List A) → length (xs ++ ys) ≡ length xs + length ys
  length-append [] ys = omega arith
  length-append (x ∷ xs) ys = omega (arith, length-append xs ys)

  pub length-snoc : (xs : List A) (x : A) → length (xs ++ x ∷ []) ≡ length xs + 1
  length-snoc [] x = omega arith
  length-snoc (y ∷ xs) x = omega (arith, length-snoc xs x)

  pub find-append_none :
      (test : A → Bool) (xs ys : List A) → find test xs ≡ none → find test (xs ++ ys) ≡ find test ys
  find-append_none test [] ys h = refl
  find-append_none test (x ∷ xs) ys h = ground (arith, find-append_none test xs ys)

  pub find-append_some :
      (test : A → Bool) (xs ys : List A) {a : A}
      → find test xs ≡ some a
      → find test (xs ++ ys) ≡ some a
  find-append_some test [] ys h = ground arith
  find-append_some test (x ∷ xs) ys {a} h =
      ground (arith, λ (e : find test xs ≡ some a). find-append_some test xs ys e)

  pub count_rows-append :
      (test : A → Bool) (xs ys : List A)
      → count_rows test (xs ++ ys) ≡ count_rows test xs + count_rows test ys
  count_rows-append test [] ys = omega arith
  count_rows-append test (x ∷ xs) ys = ground (arith, count_rows-append test xs ys)

  -- What a search returns passes its test.
  pub find_sound : (test : A → Bool) (xs : List A) {a : A} → find test xs ≡ some a → test a ≡ true
  find_sound test [] h = ground arith
  find_sound test (x ∷ xs) {a} h =
      ground (arith, λ (e : find test xs ≡ some a). find_sound test xs e)

  pub any-append :
      (test : A → Bool) (xs ys : List A) → any test (xs ++ ys) ≡ (any test xs || any test ys)
  any-append test [] ys = refl
  any-append test (x ∷ xs) ys = ground (arith, any-append test xs ys)

  pub any_last :
      (test : A → Bool) (xs : List A) (x : A) → test x ≡ true → any test (xs ++ x ∷ []) ≡ true
  any_last test [] x h = ground arith
  any_last test (y ∷ xs) x h = ground (arith, any_last test xs x h)

  pub any-weaken :
      (f g : A → Bool) (xs : List A)
      → ((x : A) → f x ≡ true → g x ≡ true)
      → any f xs ≡ true
      → any g xs ≡ true
  any-weaken f g [] weak h = h
  any-weaken f g (x ∷ xs) weak h =
      ground
        (arith, λ (e : f x ≡ true). weak x e, λ (e : any f xs ≡ true). any-weaken f g xs weak e)

  pub any-append_left :
      (test : A → Bool) (xs ys : List A) → any test xs ≡ true → any test (xs ++ ys) ≡ true
  any-append_left test xs ys h = ground (arith, any-append test xs ys)

  pub any-append_right :
      (test : A → Bool) (xs ys : List A) → any test ys ≡ true → any test (xs ++ ys) ≡ true
  any-append_right test xs ys h = ground (arith, any-append test xs ys)

  pub length-where_rows :
      (test : A → Bool) (xs : List A) → length (where_rows test xs) ≡ count_rows test xs
  length-where_rows test [] = refl
  length-where_rows test (x ∷ xs) = ground (arith, length-where_rows test xs)

  pub any-find :
      (test : A → Bool) (xs : List A) → any test xs ≡ true → (x : A) × (find test xs ≡ some x)
  any-find test [] h = ground arith
  any-find test (x ∷ xs) h = elim (Bool-cases (test x)) [
    | inl e ↦ (x, ground (arith, e))
    | inr e ↦ let (y, f) = any-find test xs (ground (arith, h, e)) in (y, ground (arith, f, e))
  ]

  pub count_rows-where_rows_le :
      (test keep : A → Bool) (xs : List A)
      → count_rows test (where_rows keep xs) ≤ count_rows test xs
  count_rows-where_rows_le test keep [] = omega arith
  count_rows-where_rows_le test keep (x ∷ xs) =
      ground (arith, count_rows-where_rows_le test keep xs)

  pub count_rows-weaken :
      (f g : A → Bool) (xs : List A)
      → ((x : A) → f x ≡ true → g x ≡ true)
      → count_rows f xs ≤ count_rows g xs
  count_rows-weaken f g [] weak = omega arith
  count_rows-weaken f g (x ∷ xs) weak =
      ground (arith, λ (e : f x ≡ true). weak x e, count_rows-weaken f g xs weak)

  pub where_rows-append :
      (test : A → Bool) (xs ys : List A)
      → where_rows test (xs ++ ys) ≡ where_rows test xs ++ where_rows test ys
  where_rows-append test [] ys = refl
  where_rows-append test (x ∷ xs) ys = ground (arith, where_rows-append test xs ys)

  pub where_rows_none :
      (test : A → Bool) (xs : List A) → any test xs ≡ false → where_rows test xs ≡ []
  where_rows_none test [] h = refl
  where_rows_none test (x ∷ xs) h = ground (arith, where_rows_none test xs, h)

-- Whether a number is among the numbers of a set.
abbrev pub contains : ℕ → List ℕ → Bool
contains n = any (λ m. m == n)
