-- ===== src/Curation/Ranking/Bands.antt =====
-- One item per band: what `compute_recommendations` keeps of each band.
use bandcamp_curate.Base.{
  ==_iff, ap, ◌||◌, arith, ℕ, Bool, true, false, Option, none, some, List, [], ◌∷◌, ◌≡◌, refl,
  contains, find, where_rows, opt_is,
}
use bandcamp_curate.Curation.Tables.{opt_in}
use bandcamp_curate.Curation.Scoring.{Floats, ScoredItem}
use bandcamp_curate.Curation.Ranking.{keep_top, add_seen}

-- The items of a band, and those of none.
abbrev pub of_band : (fl : Floats) → ℕ → ScoredItem fl → Bool
of_band fl b s = opt_is s.band_id b

abbrev pub first : {A : Type 0} → Option A → List A
first none = []
first (some x) = x ∷ []

-- Whether another band is seen does not change by adding a band.
contains-add_seen :
    (b : ℕ) (o : Option ℕ) (seen : List ℕ)
    → contains b (add_seen o seen) ≡ (opt_is o b || contains b seen)
unfolding add_seen
contains-add_seen b none seen = refl
contains-add_seen b (some c) seen = refl

-- An item of a band that is seen is passed over.
passes_over :
    (b : ℕ) (o : Option ℕ) (seen : List ℕ) → opt_is o b ≡ true → opt_in o seen ≡ contains b seen
passes_over b none seen h = ground arith
passes_over b (some c) seen h = ap (λ x. contains x seen) ((==_iff c b).0 h)

keep_top-seen :
    (fl : Floats) (b : ℕ) (seen : List ℕ) (ss : List (ScoredItem fl))
    → contains b seen ≡ true
    → where_rows (of_band fl b) (keep_top fl seen ss) ≡ []
unfolding keep_top
keep_top-seen fl b seen [] h = refl
keep_top-seen fl b seen (s ∷ ss) h = ground (
  arith,
  passes_over b s.band_id seen,
  contains-add_seen b s.band_id seen,
  λ (e : contains b (add_seen s.band_id seen) ≡ true).
      keep_top-seen fl b (add_seen s.band_id seen) ss e,
)

keep_top-unseen :
    (fl : Floats) (b : ℕ) (seen : List ℕ) (ss : List (ScoredItem fl))
    → contains b seen ≡ false
    → where_rows (of_band fl b) (keep_top fl seen ss) ≡ first (find (of_band fl b) ss)
unfolding keep_top
keep_top-unseen fl b seen [] h = refl
keep_top-unseen fl b seen (s ∷ ss) h = ground (
  arith,
  passes_over b s.band_id seen,
  contains-add_seen b s.band_id seen,
  λ (e : contains b (add_seen s.band_id seen) ≡ true).
      keep_top-seen fl b (add_seen s.band_id seen) ss e,
  λ (e : contains b (add_seen s.band_id seen) ≡ false).
      keep_top-unseen fl b (add_seen s.band_id seen) ss e,
)

-- With one item per band, what remains of a band is its first item in the ranking, and nothing of
-- a band without items.
pub keep_top-first :
    (fl : Floats) (b : ℕ) (ss : List (ScoredItem fl))
    → where_rows (of_band fl b) (keep_top fl [] ss) ≡ first (find (of_band fl b) ss)
keep_top-first fl b ss = keep_top-unseen fl b [] ss refl
