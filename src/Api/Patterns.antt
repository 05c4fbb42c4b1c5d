-- ===== src/Api/Patterns.antt =====
-- `_ilike_escape` of backend/app/api/feed.py, and SQL's ILIKE with an escape character.
pub mod Literal
use bandcamp_curate.Base.{
  ℕ, Bool, true, false, ◌&&◌, ◌||◌, List, [], ◌∷◌, ◌++◌, ◌==◌, if◌then◌else◌, Text,
}

abbrev pub percent : ℕ
percent = 37

abbrev pub underscore : ℕ
underscore = 95

abbrev pub backslash : ℕ
backslash = 92

abbrev pub is_wild : ℕ → Bool
is_wild c = (c == percent) || ((c == underscore) || (c == backslash))

-- The three replacements, the backslash first: every wildcard has a backslash put before it.
unfoldable pub ilike_escape : Text → Text
ilike_escape [] = []
ilike_escape (c ∷ s) =
    let rest = ilike_escape s in if is_wild c then backslash ∷ c ∷ rest else c ∷ rest

-- The pattern of a substring.
unfoldable pub substring_pattern : Text → Text
unfolding ilike_escape
substring_pattern s = percent ∷ (ilike_escape s ++ percent ∷ [])

-- A text of which some end passes: what `%` stands for.
abbrev pub any_end : (Text → Bool) → Text → Bool
any_end f [] = f []
any_end f (c ∷ t) = f (c ∷ t) || any_end f t

abbrev at_first : (ℕ → Bool) → (Text → Bool) → Text → Bool
at_first f rest [] = false
at_first f rest (c ∷ t) = f c && rest t

abbrev is_empty : Text → Bool
is_empty [] = true
is_empty (c ∷ t) = false

-- Whether a text matches a pattern, of which the first character is escaped or not; characters are
-- compared by their case folding.
unfoldable pub ilike : (ℕ → ℕ) → Bool → Text → Text → Bool
ilike fold escaped [] = is_empty
ilike fold true (c ∷ p) = at_first (λ d. fold d == fold c) (ilike fold false p)
ilike fold false (c ∷ p) =
    let literal = ilike fold true p in
    let plain = ilike fold false p in
    if c == backslash
    then literal
    else if c == percent
    then any_end plain
    else if c == underscore
    then at_first (λ d. true) plain
    else at_first (λ d. fold d == fold c) plain
