-- ===== src/Base/Texts.antt =====
-- Text as the list of its code points, with a Boolean equality.
use Prim.Native.Nat.{◌-◌, ◌<◌, ◌*◌, ℕ, zero, suc, ◌+◌, ◌/◌, ◌%◌}
use Prim.Native.Char.{code}
use Prim.Native.String.{String}
use mathlib.Core.Path.{ap, ◌≡◌, refl}
use mathlib.Core.Logic.{inr, inl, ◌↔◌}
use mathlib.Core.Bool.{Bool, true, false, ◌&&◌}
use mathlib.Core.List.{List, [], ◌∷◌, ◌++◌}
use native.Mathlib.Omega.{arith}
use Prim.Native.Nat.{◌≤◌}
use bandcamp_curate.Base.Lists.{All, All-append}
use bandcamp_curate.Base.Tests.{Bool-cases, ◌==◌, ltb, if◌then◌else◌}

abbrev pub Text : Type 0
Text = List ℕ

-- The code points of a literal.
abbrev pub codes : String → Text
codes String.[] = []
codes (String.◌∷◌ c s) = code c ∷ codes s

unfoldable pub same_text : Text → Text → Bool
same_text [] [] = true
same_text (a ∷ s) (b ∷ t) = a == b && same_text s t
same_text _ _ = false

same_text→≡ : (s t : Text) → same_text s t ≡ true → s ≡ t
unfolding same_text
same_text→≡ [] [] h = refl
same_text→≡ (a ∷ s) (b ∷ t) h = ground (arith, same_text→≡ s t)
same_text→≡ [] (b ∷ t) h = ground arith
same_text→≡ (a ∷ s) [] h = ground arith

pub same_text_refl : (s : Text) → same_text s s ≡ true
unfolding same_text
same_text_refl [] = refl
same_text_refl (a ∷ s) = ground (arith, same_text_refl s)

≡→same_text : (s t : Text) → s ≡ t → same_text s t ≡ true
≡→same_text s t h = ground (arith, same_text_refl s)

pub same_text_iff : (s t : Text) → (same_text s t ≡ true) ↔ (s ≡ t)
same_text_iff s t = (same_text→≡ s t, ≡→same_text s t)

decimal_from : ℕ → ℕ → Text
decimal_from zero n = []
decimal_from (suc fuel) n =
    let rest = decimal_from fuel (n / 10) in
    if ltb n 10 then (48 + n) ∷ [] else rest ++ (48 + n % 10) ∷ []

-- A number as an f-string prints it; a number has no more digits than its successor.
unfoldable pub decimal : ℕ → Text
unfolding decimal_from
decimal n = decimal_from (suc n) n

-- The number that a text of digits stands for, read from the left.
value_from : ℕ → Text → ℕ
value_from acc [] = acc
value_from acc (c ∷ s) = value_from (acc * 10 + (c - 48)) s

value_from-snoc :
    (acc : ℕ) (s : Text) (c : ℕ) → value_from acc (s ++ c ∷ []) ≡ value_from acc s * 10 + (c - 48)
unfolding value_from
value_from-snoc acc [] c = refl
value_from-snoc acc (d ∷ s) c = value_from-snoc (acc * 10 + (d - 48)) s c

value_from-decimal_from : (fuel n : ℕ) → n < fuel → value_from 0 (decimal_from fuel n) ≡ n
unfolding decimal_from value_from
value_from-decimal_from zero n h = ground arith
value_from-decimal_from (suc fuel) n h = elim (Bool-cases (ltb n 10)) [
  | inl e ↦ rw e (omega arith)
  | inr e ↦
      let smaller : n / 10 < fuel = ground (arith, h, e) in
      rw (e, value_from-snoc 0 (decimal_from fuel (n / 10)) (48 + n % 10))
        (ground (arith, value_from-decimal_from fuel (n / 10) smaller))
]

pub append-cancel : (s : Text) {t u : Text} → s ++ t ≡ s ++ u → t ≡ u
append-cancel [] h = h
append-cancel (c ∷ s) h = append-cancel s (ground (arith, h))

-- A number is printed in one way, also with the same text before it and the same character after it.
pub decimal-injective_within :
    (s : Text) (c m n : ℕ) → s ++ (decimal m ++ c ∷ []) ≡ s ++ (decimal n ++ c ∷ []) → m ≡ n
unfolding decimal
decimal-injective_within s c m n h =
    let same = ap (value_from 0) (append-cancel s h) in
    ground (
      arith,
      same,
      value_from-snoc 0 (decimal m) c,
      value_from-snoc 0 (decimal n) c,
      value_from-decimal_from (suc m) m (omega arith),
      value_from-decimal_from (suc n) n (omega arith),
    )

decimal_from-digits : (fuel n : ℕ) → All (λ c. 48 ≤ c) (decimal_from fuel n)
unfolding decimal_from
decimal_from-digits zero n = tt
decimal_from-digits (suc fuel) n = elim (Bool-cases (ltb n 10)) [
  | inl e ↦ rw e (omega arith, tt)
  | inr e ↦ rw e (
      All-append (λ c. 48 ≤ c) (decimal_from fuel (n / 10)) ((48 + n % 10) ∷ [])
        (decimal_from-digits fuel (n / 10)) (omega arith, tt))
]

pub decimal-digits : (n : ℕ) → All (λ c. 48 ≤ c) (decimal n)
unfolding decimal
decimal-digits n = decimal_from-digits (suc n) n

pub decimal-injective : (m n : ℕ) → decimal m ≡ decimal n → m ≡ n
decimal-injective m n h = decimal-injective_within [] 0 m n (ap (λ (t : Text). t ++ 0 ∷ []) h)
