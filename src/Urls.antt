-- ===== src/Urls.antt =====
-- The URL helpers: backend/app/bandcamp/urls.py, `kind_for_url` of backend/app/crawl/service.py and
-- `parse_seed_url` of backend/app/crawl/scan_service.py. A regular expression that starts at the
-- start of the text is a walk along it. `lower` and IGNORECASE are those of ASCII.
use bandcamp_curate.Base.{
  ◌-◌, length, take, ok, invalid, raise, ◌||◌, Result, ℕ, ◌+◌, Bool, ◌&&◌, Option, none, some, [],
  ◌∷◌, map, ◌==◌, leb, if◌then◌else◌, Text, codes,
}
use mathlib.Core.Option
use bandcamp_curate.Frontier.Tables.{CrawlKind, album, track}

unfoldable pub lower : ℕ → ℕ
lower c = if leb b'A' c && leb c b'Z' then c + 32 else c

unfoldable pub lower_text : Text → Text
unfolding lower
lower_text = map lower

-- The rest of a text after a literal, letter by letter with `same`.
unfoldable pub after : (ℕ → ℕ → Bool) → Text → Text → Option Text
after same [] s = some s
after same (c ∷ pattern) [] = none
after same (c ∷ pattern) (d ∷ s) =
    let rest = after same pattern s in if same c d then rest else none

-- The letters up to the first that `stop` holds of, and the rest.
unfoldable pub span : (ℕ → Bool) → Text → Text × Text
span stop [] = ([], [])
span stop (c ∷ s) = let (run, rest) = span stop s in if stop c then ([], c ∷ s) else (c ∷ run, rest)

abbrev pub exactly : ℕ → ℕ → Bool
exactly c d = c == d

abbrev pub ignoring_case : ℕ → ℕ → Bool
ignoring_case c d = lower c == lower d

-- `https?://`: what is behind it.
unfoldable pub after_scheme : (ℕ → ℕ → Bool) → Text → Option Text
unfolding after
after_scheme same s = elim (after same (codes "https://") s) [
  | some rest ↦ some rest
  | none ↦ after same (codes "http://") s
]

abbrev is_slash : ℕ → Bool
is_slash c = c == b'/'

-- `[^/]+` is not empty.
abbrev nonempty : Text → Option Text
nonempty [] = none
nonempty (c ∷ s) = some (c ∷ s)

-- `url_host`
unfoldable pub url_host : Option Text → Option Text
unfolding after_scheme span lower_text
url_host none = none
url_host (some url) = elim (after_scheme exactly url) [
  | none ↦ none
  | some rest ↦ Option.map lower_text (nonempty (span is_slash rest).0)
]

-- What is behind `/album/` or `/track/` after the host, and which of the two it is.
unfoldable pub release_path : Text → Option (CrawlKind × Text)
unfolding after lower
release_path s = elim (after ignoring_case (codes "/album/") s) [
  | some slug ↦ some (album, slug)
  | none ↦ Option.map (λ slug. (track, slug)) (after ignoring_case (codes "/track/") s)
]

-- `kind_for_url`
unfoldable pub kind_for_url : Text → Option CrawlKind
unfolding after_scheme span release_path
kind_for_url url = elim (after_scheme ignoring_case url) [
  | none ↦ none
  | some rest ↦ elim (nonempty (span is_slash rest).0) [
    | none ↦ none
    | some _ ↦ Option.map (λ r. r.0) (release_path (span is_slash rest).1)
  ]
]

-- `str.strip`, of the white space of ASCII.
abbrev is_space : ℕ → Bool
is_space c = c == 32 || ((leb 9 c && leb c 13) || (leb 28 c && leb c 31))

unfoldable pub lstrip : Text → Text
lstrip [] = []
lstrip (c ∷ s) = let rest = lstrip s in if is_space c then rest else c ∷ s

unfoldable pub rstrip : Text → Text
rstrip [] = []
rstrip (c ∷ s) = elim (rstrip s) [ [] ↦ if is_space c then [] else c ∷ [] | d ∷ t ↦ c ∷ d ∷ t ]

unfoldable pub strip : Text → Text
unfolding lstrip rstrip
strip s = rstrip (lstrip s)

-- `[^/?#]+`
abbrev ends_slug : ℕ → Bool
ends_slug c = c == b'/' || (c == b'?' || c == b'#')

-- What is behind the match of `_SEED_RE`, and the kind of the seed.
unfoldable pub match_seed : Text → Option (CrawlKind × Text)
unfolding after_scheme span release_path
match_seed url = elim (after_scheme ignoring_case url) [
  | none ↦ none
  | some rest ↦ elim (nonempty (span is_slash rest).0) [
    | none ↦ none
    | some _ ↦ elim (release_path (span is_slash rest).1) [
      | none ↦ none
      | some (kind, tail) ↦ elim (nonempty (span ends_slug tail).0) [
        | none ↦ none
        | some _ ↦ some (kind, (span ends_slug tail).1)
      ]
    ]
  ]
]

-- `parse_seed_url`: the letters of the match, and the kind.
unfoldable pub parse_seed_url : Text → Result (Text × CrawlKind)
unfolding strip match_seed
parse_seed_url url = elim (match_seed (strip url)) [
  | none ↦ raise invalid
  | some (kind, rest) ↦ ok (take (length (strip url) - length rest) (strip url), kind)
]
