-- ===== src/Tests/Ranks.antt =====
-- A small graph, and the theorems on backend/app/curation/engine.py for it. Scores are counted in
-- whole numbers here.
use bandcamp_curate.Base.{
  sort_rows, codes, ◌==◌, ℕ, ◌+◌, ◌*◌, ◌≡◌, refl, true, false, none, some, List, [], ◌∷◌, ltb,
}
use bandcamp_curate.Curation.Tables.{Release, FanItem, Library}
use bandcamp_curate.Curation.Neighbours.{Seeds}
use bandcamp_curate.Curation.Scoring.{Floats, album, ScoredItem}
use bandcamp_curate.Curation.Ranking.{Request, compute_recommendations}
use bandcamp_curate.Curation.Exclusions.{excluded, build_exclusions}
use bandcamp_curate.Curation.ColdStart.{
  reasons_of, album_columns, track_columns, cold_start_diagnostics,
}
use bandcamp_curate.Curation.ColdStart.Agrees.{any_reason, reasons_complete}
use bandcamp_curate.Curation.SeedTags.{seed_tags}
use bandcamp_curate.Curation.SeedTags.Genres.{IsGenres, seed_tags-IsGenres}
use bandcamp_curate.Curation.Sizes.{
  neighbour_size_buckets, Shares, ReportRow, contribution, neighbours_of, neighbour_size_report,
}
use bandcamp_curate.Curation.Sizes.Labels.{ascending}
use bandcamp_curate.Curation.Sizes.Partition.{IsPartition, neighbour_size_report-IsPartition}

abbrev pub whole : Floats
whole = record {
  F = ℕ;
  add = λ m n. m + n;
  mul = λ m n. m * n;
  of_int = λ n. n;
  log1p = λ n. n;
  w_co_owner = 3;
  w_tag_affinity = 1;
  w_tag_affinity_weighted = 1;
  less = ltb;
}

abbrev pub scored : ℕ → ℕ → ScoredItem whole
scored item band = record {
  item_type = album;
  ident = item;
  score = item;
  band_id = some band;
  co_owners = 1;
  affinity = 0;
  seed_tags = [];
}

abbrev release : ℕ → ℕ → Release
release id band = record { id = id; band_id = some band; url = none; title = none; art_id = none }

abbrev has_album : ℕ → ℕ → FanItem
has_album fan item = record {
  fan_id = fan;
  album_id = some item;
  track_id = none;
  is_wishlist = false;
}

-- Fan 1 has album 1, which fan 2 supports, who also has the albums 2 and 3.
abbrev pub library : Library
library = record {
  albums = release 1 11 ∷ release 2 12 ∷ release 3 12 ∷ [];
  tracks = [];
  bands = [];
  fan_items = has_album 1 1 ∷ has_album 2 1 ∷ has_album 2 2 ∷ has_album 2 3 ∷ [];
  follows = [];
  blacklist = [];
  likes = [];
  album_supporters = record { owner = 1; target = 2 } ∷ [];
  track_supporters = [];
  album_tags = [];
  track_tags = [];
  band_tags = [];
  tags = [];
  next_block_id = 1;
  next_like_id = 1;
}

abbrev pub request : Request
request = record {
  now = 0;
  me = 1;
  user = 9;
  seeds = Seeds.collection;
  limit = some 10;
  one_per_band = true;
  exclude_seed_tags = [];
  min_co_owners = 1;
  weighted = true;
}

abbrev idents : List (ScoredItem whole) → List ℕ
idents [] = []
idents (s ∷ ss) = s.ident ∷ idents ss

-- Of the two albums of one band the one with the larger id is shown.
shows_album : idents (compute_recommendations whole request library).0 ≡ 3 ∷ []
unfolding compute_recommendations
shows_album = refl

-- Album 1 is the user's.
reasons_complete_example :
    (excluded
        (build_exclusions 0 1 9 library).album_ids
        (build_exclusions 0 1 9 library)
        1
        (some 11)
        none
      ≡ any_reason (reasons_of 0 1 9 library album_columns 1 (some 11) none))
    × (excluded
          (build_exclusions 0 1 9 library).track_ids
          (build_exclusions 0 1 9 library)
          1
          (some 11)
          none
        ≡ any_reason (reasons_of 0 1 9 library track_columns 1 (some 11) none))
reasons_complete_example = reasons_complete 0 1 9 library 1 (some 11) none

-- Fan 2 has three albums, of which one is the user's.
diagnoses : (cold_start_diagnostics 0 1 9 Seeds.collection library).candidates ≡ 3
unfolding cold_start_diagnostics
diagnoses = refl

owns_one : (cold_start_diagnostics 0 1 9 Seeds.collection library).excluded_by_reason.owned ≡ 1
unfolding cold_start_diagnostics
owns_one = refl

-- The user's album has two tags of one name and one of another.
abbrev tagged : Library
tagged = record library {
  album_tags =
      record { owner = 1; target = 1 }
      ∷ record { owner = 1; target = 2 }
      ∷ record { owner = 1; target = 3 }
      ∷ [];
  tags =
      record { id = 1; name = codes "jazz" }
      ∷ record { id = 2; name = codes "ambient" }
      ∷ record { id = 3; name = codes "jazz" }
      ∷ [];
}

seed_tags-IsGenres_example : IsGenres 1 tagged (seed_tags 1 tagged)
seed_tags-IsGenres_example = seed_tags-IsGenres 1 tagged

offers_two :
    seed_tags 1 tagged
    ≡ record { name = codes "ambient"; count = 1 } ∷ record { name = codes "jazz"; count = 1 } ∷ []
unfolding seed_tags
offers_two = refl

abbrev shares : Shares whole
shares = record { ratio = λ m n. m; divide = λ m n. m; is_zero = λ n. n == 0 }

default_bounds : sort_rows ltb neighbour_size_buckets ≡ 50 ∷ 200 ∷ 1000 ∷ 5000 ∷ []
unfolding sort_rows
default_bounds = refl

bounds_ascend : ascending (50 ∷ 200 ∷ 1000 ∷ 5000 ∷ []) ≡ true
unfolding ascending
bounds_ascend = refl

neighbour_size_report-IsPartition_example :
    (rows : List (ReportRow whole)) × (neighbour_size_report whole shares neighbour_size_buckets 0 1
        9 Seeds.collection library
      ≡ some rows)
    × IsPartition whole
        (contribution whole 0 1 9 (neighbours_of whole 1 Seeds.collection library) library)
        (neighbours_of whole 1 Seeds.collection library)
        rows
neighbour_size_report-IsPartition_example =
    neighbour_size_report-IsPartition whole shares neighbour_size_buckets 50
      (200 ∷ 1000 ∷ 5000 ∷ []) 0 1 9 Seeds.collection library default_bounds bounds_ascend
