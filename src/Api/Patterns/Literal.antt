-- ===== src/Api/Patterns/Literal.antt =====
-- User input is searched for as it stands (backend/app/api/feed.py).
use bandcamp_curate.Base.{
  ℕ, Bool, true, false, ◌&&◌, [], ◌∷◌, ◌++◌, ◌≡◌, refl, ◌==◌, Text, arith, Bool-cases, inl, inr,
}
use bandcamp_curate.Api.Patterns.{
  percent, underscore, backslash, is_wild, ilike_escape, substring_pattern, any_end, ilike,
}

-- The text begins with the word, up to case.
unfoldable pub begins_with : (ℕ → ℕ) → Text → Text → Bool
begins_with fold [] t = true
begins_with fold (c ∷ s) [] = false
begins_with fold (c ∷ s) (d ∷ t) = (fold d == fold c) && begins_with fold s t

any_end-true : (fold : ℕ → ℕ) (t : Text) → any_end (ilike fold false []) t ≡ true
unfolding ilike
any_end-true fold [] = refl
any_end-true fold (c ∷ t) = ground (arith, any_end-true fold t)

not_wild :
    (c : ℕ)
    → is_wild c ≡ false
    → ((c == backslash) ≡ false) × ((c == percent) ≡ false) × ((c == underscore) ≡ false)
not_wild c h = (ground (arith, h), ground (arith, h), ground (arith, h))

ilike-escape :
    (fold : ℕ → ℕ) (s t : Text)
    → ilike fold false (ilike_escape s ++ percent ∷ []) t ≡ begins_with fold s t
unfolding ilike ilike_escape begins_with
ilike-escape fold [] t = any_end-true fold t
ilike-escape fold (c ∷ s) [] = elim (Bool-cases (is_wild c)) [
  | inl e ↦ rw e refl
  | inr e ↦ let (b, p, u) = not_wild c e in rw (e, b, p, u) refl
]
ilike-escape fold (c ∷ s) (d ∷ t) = elim (Bool-cases (is_wild c)) [
  | inl e ↦ rw e (ground (arith, ilike-escape fold s t))
  | inr e ↦ let (b, p, u) = not_wild c e in rw (e, b, p, u) (ground (arith, ilike-escape fold s t))
]

any_end-cong : (f g : Text → Bool) (t : Text) → ((u : Text) → f u ≡ g u) → any_end f t ≡ any_end g t
any_end-cong f g [] same = same []
any_end-cong f g (c ∷ t) same = ground (arith, same (c ∷ t), any_end-cong f g t same)

-- Whatever the input holds (wildcards and backslashes too), a name matches the pattern that is made
-- of it just if the input occurs in the name, up to case.
pub ilike-substring_pattern :
    (fold : ℕ → ℕ) (s t : Text)
    → ilike fold false (substring_pattern s) t ≡ any_end (begins_with fold s) t
unfolding ilike substring_pattern
ilike-substring_pattern fold s t =
    any_end-cong (ilike fold false (ilike_escape s ++ percent ∷ [])) (begins_with fold s) t
      (ilike-escape fold s)
