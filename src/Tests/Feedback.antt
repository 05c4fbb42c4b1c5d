-- ===== src/Tests/Feedback.antt =====
-- A user who likes and blocks, and the theorems on backend/app/api/likes.py and
-- backend/app/api/blacklist.py for that user.
use bandcamp_curate.Base.{
  count_rows, ◌≤◌, Bool, Text, Option, multiple_results, ◌==◌, arith, ℕ, false, true, none, some,
  [], ◌∷◌, ◌≡◌, refl, codes, All, opt_is, any, contains, ok, raise,
}
use bandcamp_curate.Curation.Tables.{Band, unknown, scalar_set, Blocked}
use bandcamp_curate.Curation.Exclusions.{my_blocks}
use bandcamp_curate.Curation.Scoring.{album, ScoredItem}
use bandcamp_curate.Curation.Ranking.{compute_recommendations}
use bandcamp_curate.Scans.Tables.{User, Scan, Store, Recommendation, collection, done}
use bandcamp_curate.Api.Likes.{band_ref, liked_row, LikeIn, LikeOut, like}
use bandcamp_curate.Api.Likes.Lasting.{like-lasting}
use bandcamp_curate.Api.Likes.Answers.{IsUnique}
use bandcamp_curate.Api.Blocks.{
  get_band, in_future, BlockIn, BlacklistOut, block, block_from, unblock, list_blocked,
}
use bandcamp_curate.Api.Blocks.Lasting.{block-lasting}
use bandcamp_curate.Api.Blocks.Listing.{list_blocked-my_blocks}
use bandcamp_curate.Api.Blocks.Lifting.{active_entry, blocked_twice}
use bandcamp_curate.Api.Collection.{CollectionOut, Collation, liked_edges}
use bandcamp_curate.Api.Collection
use bandcamp_curate.Api.Collection.Whole.{IsCollection, collection-IsCollection}
use bandcamp_curate.Tests.Ranks.{whole, library, request, scored}

abbrev pub scan_of : ℕ → ℕ → Scan
scan_of id user = record {
  id = id;
  user_id = user;
  name = codes "My collection";
  kind = collection;
  status = done;
  error_text = none;
  last_run_at = none;
  recompute_generation = 4;
  stats = record {
    slices_run = none;
    last_slice_at = none;
    recommendations = none;
    credits = none;
    curation = none;
  };
}

abbrev recommended : ℕ → ℕ → Recommendation whole
recommended scan item = record { scan_id = scan; item = scored item 12 }

abbrev band : Band
band = record { id = 12; url = none; name = some (codes "Band"); kind = unknown }

-- The users 9 and 8 have a scan each, with the albums of the same band.
abbrev pub store : Store whole
store = record {
  scans = scan_of 1 9 ∷ scan_of 2 8 ∷ [];
  next_scan_id = 3;
  seeds = [];
  users = [];
  next_user_id = 10;
  fans = [];
  recommendations = recommended 1 3 ∷ recommended 1 2 ∷ recommended 2 3 ∷ [];
  frontier = record { rows = []; next_id = 1; scans = [] };
  usage = [];
  library = record library { bands = band ∷ [] };
}

abbrev pub liked_album : LikeIn
liked_album = record { album_id = some 3; track_id = none }

abbrev pub like_out : LikeOut
like_out = record {
  id = 1;
  item_type = album;
  album_id = some 3;
  track_id = none;
  title = none;
  band_name = some (codes "Band");
  url = none;
}

pub like_works : (like 9 liked_album store).0 ≡ ok like_out
unfolding like
like_works = refl

in_band_12 : band_ref (liked_row liked_album store.library) ≡ some 12
unfolding liked_row
in_band_12 = refl

like-lasting_example :
    All
      (λ (s : ScoredItem whole). opt_is s.band_id 12 ≡ false)
      (compute_recommendations whole request (like 9 liked_album store).1.library).0
like-lasting_example =
    like-lasting 9 liked_album 12 request store like_out like_works in_band_12 refl

no_likes-IsUnique : IsUnique store.library.likes
unfolding IsUnique
no_likes-IsUnique = λ user p. omega arith

abbrev blocked_band : BlockIn
blocked_band = record { band_id = 12; reason = none; expires_at = some 100 }

abbrev block_out : ℕ → BlacklistOut
block_out id = record {
  id = id;
  band_id = 12;
  band_name = some (codes "Band");
  band_url = none;
  reason = none;
  expires_at = some 100;
}

block_works : (block 50 9 blocked_band store).0 ≡ ok (block_out 1)
unfolding block
block_works = refl

block_from_works : (block_from 50 9 blocked_band [] store).0 ≡ ok (block_out 1)
unfolding block_from
block_from_works = refl

not_yet : in_future request.now blocked_band.expires_at ≡ true
unfolding in_future
not_yet = refl

block-lasting_example :
    All
      (λ (s : ScoredItem whole). opt_is s.band_id 12 ≡ false)
      (compute_recommendations whole request (block 50 9 blocked_band store).1.library).0
block-lasting_example =
    block-lasting 50 9 blocked_band request store (block_out 1) block_works refl not_yet

known_band : get_band 12 (block 50 9 blocked_band store).1.library.bands ≡ some band
unfolding get_band block
known_band = refl

abbrev by_table : Option Text → Option Text → Bool
by_table a b = false

list_blocked-my_blocks_example :
    any
      (λ (r : BlacklistOut). r.band_id == 12)
      (list_blocked by_table 60 9 (block 50 9 blocked_band store).1.library)
    ≡ contains 12 (
        scalar_set
          (λ (b : Blocked). b.band_id)
          (my_blocks 60 9 (block 50 9 blocked_band store).1.library))
list_blocked-my_blocks_example =
    list_blocked-my_blocks by_table 60 9 12 (block 50 9 blocked_band store).1.library known_band

again_works :
    (block_from 50 9 blocked_band [] (block_from 50 9 blocked_band [] store).1).0 ≡ ok (block_out 2)
unfolding block_from
again_works = refl

blocked_twice_example :
    let st = (block_from 50 9 blocked_band [] (block_from 50 9 blocked_band [] store).1).1 in
    (2 ≤ count_rows (active_entry 9 12) st.library.blacklist)
    × (unblock 9 12 st ≡ (raise multiple_results, st))
    × (block 60 9 blocked_band st ≡ (raise multiple_results, st))
unfolding in_future
blocked_twice_example =
    blocked_twice 50 9 blocked_band [] [] store (block_out 1) (block_out 2) 60 blocked_band
      block_from_works refl again_works refl refl refl

abbrev ann : User
ann = record {
  id = 9;
  username = codes "ann";
  password_hash = [];
  bandcamp_fan_url = none;
  fan_id = some 1;
  failed_login_attempts = 0;
  locked_until = none;
}

-- No text comes before another: rows stay in the order of their ids.
abbrev unordered : Collation
unordered = record { lower = λ t. t; before = λ a b. false }

collection-IsCollection_example :
    (out : CollectionOut) × (Collection.collection unordered ann 1 store.library ≡ ok out)
    × IsCollection unordered ann 1 store.library out
collection-IsCollection_example =
    collection-IsCollection unordered (λ a b h. refl) ann 1 store.library (omega arith)
      (omega arith)
