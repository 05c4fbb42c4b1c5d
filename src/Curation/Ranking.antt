-- ===== src/Curation/Ranking.antt =====
-- `compute_recommendations` of backend/app/curation/engine.py from the sort on, its composition,
-- and `store_recommendations`.
pub mod Excluded
pub mod Bands
pub mod Descending
pub mod Admissible
use bandcamp_curate.Base.{
  ℕ, zero, suc, ◌+◌, Bool, true, false, ◌&&◌, ◌||◌, not, Option, none, some, List, [], ◌∷◌, ◌++◌,
  map, ◌==◌, ltb, if◌then◌else◌, contains, take, length,
}
use bandcamp_curate.Curation.Tables.{Library, FanItem, opt_in}
use bandcamp_curate.Curation.Exclusions.{build_exclusions, Exclusions}
use bandcamp_curate.Curation.Neighbours.{
  Seeds, seed_ids, scan_neighbours, my_owned_ids, neighbour_overlap, effective_tags, tag_profile,
  seed_tag_provenance, track_only,
}
use bandcamp_curate.Curation.Scoring.{
  Floats, ItemType, album, track, ScoredItem, Context, score_candidates, owner_pairs, group_pairs,
}

-- What one call of `compute_recommendations` is asked; the settings' defaults are filled in.
pub record Request : Type 0 where
  pub now : ℕ
  pub me : ℕ
  pub user : ℕ
  pub seeds : Seeds
  pub limit : Option ℕ
  pub one_per_band : Bool
  pub exclude_seed_tags : List ℕ
  pub min_co_owners : ℕ
  pub weighted : Bool

-- `stats_out`
pub record Stats : Type 0 where
  pub min_co_owners : ℕ
  pub weighted : Bool
  pub candidates : ℕ
  pub filtered_by_floor : ℕ

unfoldable pub item_type_priority : ItemType → ℕ
item_type_priority album = 0
item_type_priority track = 1

-- `less` on numbers of a key, then on the rest of it.
unfoldable pub key_less : ℕ → ℕ → Bool → Bool
key_less m n rest = ltb m n || (m == n && rest)

unfoldable pub contexts : Request → Library → Context
unfolding build_exclusions my_owned_ids seed_ids scan_neighbours neighbour_overlap tag_profile
contexts q lib =
    let (seed_albums, seed_tracks) = seed_ids q.seeds q.me lib in
    let (my_albums, my_tracks) = my_owned_ids q.me lib in
    record {
      exclusions = build_exclusions q.now q.me q.user lib;
      exclude_seed_tags = q.exclude_seed_tags;
      min_co_owners = q.min_co_owners;
      weighted = q.weighted;
      overlap =
          neighbour_overlap (scan_neighbours seed_albums seed_tracks q.me lib) my_albums my_tracks
            lib.fan_items;
      profile = tag_profile q.me lib;
    }

-- `seen_bands.add`, where there is a band.
unfoldable pub add_seen : Option ℕ → List ℕ → List ℕ
add_seen none seen = seen
add_seen (some b) seen = b ∷ seen

module _ (fl : Floats) where
  open fl use {less}

  -- Whether `_tie_break_key x` is below `_tie_break_key y`, for floats that are no NaN.
  unfoldable pub ranks_before : ScoredItem fl → ScoredItem fl → Bool
  unfolding key_less item_type_priority
  ranks_before x y =
      less y.score x.score
      || (not (less x.score y.score)
          && key_less y.co_owners x.co_owners (
              key_less y.affinity x.affinity (
                key_less (item_type_priority x.item_type) (item_type_priority y.item_type)
                  (ltb y.ident x.ident))))

  -- `list.sort`, which is stable.
  unfoldable pub place : ScoredItem fl → List (ScoredItem fl) → List (ScoredItem fl)
  unfolding ranks_before
  place s [] = s ∷ []
  place s (t ∷ ts) = let rest = place s ts in if ranks_before t s then t ∷ rest else s ∷ t ∷ ts

  unfoldable pub sort_scored : List (ScoredItem fl) → List (ScoredItem fl)
  unfolding place
  sort_scored [] = []
  sort_scored (s ∷ ss) = place s (sort_scored ss)

  -- The loop over `scored` with `seen_bands`.
  unfoldable pub keep_top : List ℕ → List (ScoredItem fl) → List (ScoredItem fl)
  unfolding add_seen
  keep_top seen [] = []
  keep_top seen (s ∷ ss) =
      let rest = keep_top (add_seen s.band_id seen) ss in
      if opt_in s.band_id seen then rest else s ∷ rest

  -- `scored[:limit] if limit else scored`
  unfoldable pub limited : Option ℕ → List (ScoredItem fl) → List (ScoredItem fl)
  limited none scored = scored
  limited (some zero) scored = scored
  limited (some (suc n)) scored = take (suc n) scored

  -- The two loops, and what is sorted: the scored albums, then the scored tracks.
  unfoldable pub score_albums : Request → Library → List (ScoredItem fl) × ℕ × ℕ
  unfolding contexts score_candidates owner_pairs group_pairs effective_tags seed_tag_provenance
      scan_neighbours seed_ids
  score_albums q lib =
      let (seed_albums, seed_tracks) = seed_ids q.seeds q.me lib in
      let neighbours = scan_neighbours seed_albums seed_tracks q.me lib in
      score_candidates fl (contexts q lib) album (contexts q lib).exclusions.album_ids
        (effective_tags lib.album_tags lib.albums lib.band_tags)
        (seed_tag_provenance seed_albums seed_tracks q.me lib (λ (i : FanItem). i.album_id))
        (group_pairs (owner_pairs neighbours (λ i. i.album_id) lib.fan_items lib.albums) [])

  unfoldable pub score_tracks : Request → Library → List (ScoredItem fl) × ℕ × ℕ
  unfolding contexts score_candidates owner_pairs group_pairs effective_tags seed_tag_provenance
      scan_neighbours seed_ids
  score_tracks q lib =
      let (seed_albums, seed_tracks) = seed_ids q.seeds q.me lib in
      let neighbours = scan_neighbours seed_albums seed_tracks q.me lib in
      score_candidates fl (contexts q lib) track (contexts q lib).exclusions.track_ids
        (effective_tags lib.track_tags lib.tracks lib.band_tags)
        (seed_tag_provenance seed_albums seed_tracks q.me lib track_only)
        (group_pairs (owner_pairs neighbours (λ i. i.track_id) lib.fan_items lib.tracks) [])

  unfoldable pub score_all : Request → Library → List (ScoredItem fl) × ℕ × ℕ
  unfolding score_albums score_tracks
  score_all q lib =
      let (albums, c₁, f₁) = score_albums q lib in
      let (tracks, c₂, f₂) = score_tracks q lib in (albums ++ tracks, c₁ + c₂, f₁ + f₂)

  unfoldable pub compute_recommendations : Request → Library → List (ScoredItem fl) × Stats
  unfolding score_all sort_scored keep_top limited
  compute_recommendations q lib =
      let (scored, candidates, filtered) = score_all q lib in
      let sorted = sort_scored scored in
      (
        limited q.limit (if q.one_per_band then keep_top [] sorted else sorted),
        record {
          min_co_owners = q.min_co_owners;
          weighted = q.weighted;
          candidates = candidates;
          filtered_by_floor = filtered;
        },
      )
