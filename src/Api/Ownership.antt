-- ===== src/Api/Ownership.antt =====
-- What the endpoints share: the scans of the user who asks, `bump_generations` of
-- backend/app/curation/generation.py, and the pruning of recommendations in
-- backend/app/api/likes.py and backend/app/api/blacklist.py.
pub mod Single
pub mod Pruning
use bandcamp_curate.Base.{
  ℕ, ◌+◌, Bool, ◌&&◌, not, Option, none, some, List, [], ◌∷◌, map, ◌==◌, if◌then◌else◌, contains,
  where_rows, opt_is, Text, Result, ok, raise, multiple_results,
}
use bandcamp_curate.Curation.Tables.{Release, Library}
use bandcamp_curate.Curation.Scoring.{Floats, album, track, ScoredItem}
use bandcamp_curate.Scans.Tables.{Scan, Recommendation, Store}

-- `scalar_one_or_none`, which raises MultipleResultsFound.
unfoldable pub scalar_one_or_none {ℓ} : {A : Type ℓ} → List A → Result (Option A)
scalar_one_or_none [] = ok none
scalar_one_or_none (x ∷ []) = ok (some x)
scalar_one_or_none (x ∷ y ∷ rows) = raise multiple_results

-- `a or b` of two texts that may be missing: an empty text is false.
unfoldable pub text_or : Option Text → Option Text → Option Text
text_or none b = b
text_or (some []) b = b
text_or (some (c ∷ s)) b = some (c ∷ s)

-- `select(Scan.id).where(Scan.user_id == user)`
unfoldable pub user_scan_ids : ℕ → List Scan → List ℕ
user_scan_ids user scans = map (λ s. s.id) (where_rows (λ s. s.user_id == user) scans)

unfoldable pub bump_generations : List ℕ → List Scan → List Scan
bump_generations scan_ids [] = []
bump_generations scan_ids (s ∷ scans) =
    let rest = bump_generations scan_ids scans in
    if contains s.id scan_ids
    then record s { recompute_generation = s.recompute_generation + 1 } ∷ rest
    else s ∷ rest

-- `select(Album.id).where(Album.band_id == band_id)`, and the same for tracks.
unfoldable pub ids_in_band : ℕ → List Release → List ℕ
ids_in_band band releases = map (λ r. r.id) (where_rows (λ r. opt_is r.band_id band) releases)

module _ {fl : Floats} where
  -- `album_id IN albums OR track_id IN tracks`
  unfoldable pub item_in : List ℕ → List ℕ → ScoredItem fl → Bool
  item_in albums tracks i = elim i.item_type [
    | album ↦ contains i.ident albums
    | track ↦ contains i.ident tracks
  ]

  unfoldable pub in_band : ℕ → Library → ScoredItem fl → Bool
  unfolding item_in ids_in_band
  in_band band lib = item_in (ids_in_band band lib.albums) (ids_in_band band lib.tracks)

  -- `DELETE FROM recommendations WHERE scan_id IN scan_ids AND test`
  unfoldable pub prune :
      List ℕ → (ScoredItem fl → Bool) → List (Recommendation fl) → List (Recommendation fl)
  prune scan_ids test recs = where_rows (λ r. not (contains r.scan_id scan_ids && test r.item)) recs

  -- The end of every handler: what is pruned in the user's scans, and their generations.
  unfoldable pub pruned : ℕ → (ScoredItem fl → Bool) → Store fl → Store fl
  unfolding prune bump_generations user_scan_ids
  pruned user test st =
      let ids = user_scan_ids user st.scans in
      record st {
        recommendations = prune ids test st.recommendations;
        scans = bump_generations ids st.scans;
      }

  unfoldable pub bumped : ℕ → Store fl → Store fl
  unfolding bump_generations user_scan_ids
  bumped user st = record st { scans = bump_generations (user_scan_ids user st.scans) st.scans }
