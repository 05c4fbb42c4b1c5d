-- ===== src/Api/Ownership/Single.antt =====
-- Queries of at most one row, by the rows that pass.
use bandcamp_curate.Base.{
  ◌≤◌, Bool, true, false, ◌&&◌, Option, none, some, List, [], ◌∷◌, ◌≡◌, refl, sym, ◌⊎◌, inl, inr,
  any, length, count_rows, length-where_rows, where_rows, ok, raise, multiple_results, arith,
}
use bandcamp_curate.Api.Ownership.{scalar_one_or_none}

-- What the query of one row gives is in the table, and passes the test.
pub scalar_one_or_none-any {ℓ} :
    {A : Type ℓ} (test wide : A → Bool) (xs : List A) {x : A}
    → scalar_one_or_none (where_rows test xs) ≡ ok (some x)
    → wide x ≡ true
    → any (λ y. wide y && test y) xs ≡ true
unfolding scalar_one_or_none
scalar_one_or_none-any test wide [] h w = ground arith
scalar_one_or_none-any test wide (y ∷ xs) {x} h w = ground (
  arith,
  λ (e : scalar_one_or_none (where_rows test xs) ≡ ok (some x)).
      scalar_one_or_none-any test wide xs {x = x} e w,
)

pub where_rows_empty {ℓ} :
    {A : Type ℓ} (test : A → Bool) (xs : List A) → where_rows test xs ≡ [] → any test xs ≡ false
where_rows_empty test [] h = refl
where_rows_empty test (x ∷ xs) h = ground (arith, where_rows_empty test xs, h)

cases_of {ℓ} :
    {A : Type ℓ} {P : Type 0} (xs : List A)
    → (xs ≡ [] → P)
    → (scalar_one_or_none xs ≡ ok none) × P
      ⊎ (((x : A) × (scalar_one_or_none xs ≡ ok (some x)))
          ⊎ (scalar_one_or_none xs ≡ raise multiple_results) × (2 ≤ length xs))
unfolding scalar_one_or_none
cases_of [] f = inl (refl, f refl)
cases_of (x ∷ []) f = inr (inl (x, refl))
cases_of (x ∷ y ∷ xs) f = inr (inr (refl, omega arith))

-- What the query of one row gives, by the rows.
pub scalar_one_or_none-cases {ℓ} :
    {A : Type ℓ} (test : A → Bool) (xs : List A)
    → (scalar_one_or_none (where_rows test xs) ≡ ok none) × (any test xs ≡ false)
      ⊎ (((x : A) × (scalar_one_or_none (where_rows test xs) ≡ ok (some x)))
          ⊎ (scalar_one_or_none (where_rows test xs) ≡ raise multiple_results)
            × (2 ≤ count_rows test xs))
scalar_one_or_none-cases test xs =
    rw (sym (length-where_rows test xs)) (cases_of (where_rows test xs) (where_rows_empty test xs))

two_found {ℓ} :
    {A : Type ℓ} (xs : List A) → 2 ≤ length xs → scalar_one_or_none xs ≡ raise multiple_results
unfolding scalar_one_or_none
two_found [] h = ground arith
two_found (x ∷ []) h = ground arith
two_found (x ∷ y ∷ xs) h = refl

pub of_two {ℓ} :
    {A : Type ℓ} (test : A → Bool) (xs : List A)
    → 2 ≤ count_rows test xs
    → scalar_one_or_none (where_rows test xs) ≡ raise multiple_results
of_two test xs two = two_found (where_rows test xs) (rw (length-where_rows test xs) two)

pub unseen_none {ℓ} :
    {A : Type ℓ} (test : A → Bool) (xs : List A) {o : Option A}
    → any test xs ≡ false
    → scalar_one_or_none (where_rows test xs) ≡ ok o
    → o ≡ none
unfolding scalar_one_or_none
unseen_none test [] {o} h e = ground arith
unseen_none test (x ∷ xs) {o} h e =
    unseen_none test xs {o = o} (ground (arith, h)) (ground (arith, h, e))

pub none_found {ℓ} : {A : Type ℓ} (xs : List A) → scalar_one_or_none xs ≡ ok none → length xs ≡ 0
unfolding scalar_one_or_none
none_found [] h = refl
none_found (x ∷ []) h = ground (arith, h)
none_found (x ∷ y ∷ xs) h = ground (arith, h)

found_of_one {ℓ} :
    {A : Type ℓ} (xs : List A) → length xs ≤ 1 → (o : Option A) × (scalar_one_or_none xs ≡ ok o)
unfolding scalar_one_or_none
found_of_one [] h = (none, refl)
found_of_one (x ∷ []) h = (some x, refl)
found_of_one (x ∷ y ∷ xs) h = ground arith

pub at_most_one {ℓ} :
    {A : Type ℓ} (test : A → Bool) (xs : List A)
    → count_rows test xs ≤ 1
    → (o : Option A) × (scalar_one_or_none (where_rows test xs) ≡ ok o)
at_most_one test xs h = found_of_one (where_rows test xs) (rw (length-where_rows test xs) h)
