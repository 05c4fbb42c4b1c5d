-- ===== src/Curation/ColdStart.antt =====
-- `cold_start_diagnostics` of backend/app/curation/engine.py: why a feed is thin.
pub mod Agrees
use bandcamp_curate.Base.{
  ℕ, suc, ◌+◌, Bool, true, false, ◌&&◌, ◌||◌, not, Option, none, some, List, [], ◌∷◌, ◌++◌, ◌==◌,
  if◌then◌else◌, Text, contains, where_rows, length,
}
use bandcamp_curate.Urls.{url_host}
use bandcamp_curate.Curation.Tables.{FanItem, Blocked, Like, Follow, Library, scalar_set, opt_in}
use bandcamp_curate.Curation.Exclusions.{
  hosts_of, followed_urls, liked_bands, my_blocks, my_likes, host_in,
}
use bandcamp_curate.Curation.Neighbours.{Seeds, seed_ids, scan_neighbours}
use bandcamp_curate.Curation.Scoring.{Pair, owner_pairs}

-- The columns of one kind of release.
pub record Columns : Type 0 where
  pub of_item : FanItem → Option ℕ
  pub of_block : Blocked → Option ℕ
  pub of_like : Like → Option ℕ

abbrev pub album_columns : Columns
album_columns = record {
  of_item = λ i. i.album_id;
  of_block = λ b. b.album_id;
  of_like = λ l. l.album_id;
}

abbrev pub track_columns : Columns
track_columns = record {
  of_item = λ i. i.track_id;
  of_block = λ b. b.track_id;
  of_like = λ l. l.track_id;
}

unfoldable pub distinct : List ℕ → List ℕ
distinct [] = []
distinct (n ∷ ns) = let rest = distinct ns in if contains n ns then rest else n ∷ rest

-- `SELECT DISTINCT` of the item with its band and URL, which are those of its row.
unfoldable pub distinct_items : List ℕ → List Pair → List Pair
distinct_items seen [] = []
distinct_items seen (p ∷ pairs) =
    let again = distinct_items seen pairs in
    let fresh = distinct_items (p.item ∷ seen) pairs in
    if contains p.item seen then again else p ∷ fresh

-- The reasons that a candidate has, and how often each was had.
pub record Reasons : Type 0 where
  pub owned : Bool
  pub wishlisted : Bool
  pub followed : Bool
  pub blacklisted : Bool
  pub liked : Bool

pub record ReasonCounts : Type 0 where
  pub owned : ℕ
  pub wishlisted : ℕ
  pub followed : ℕ
  pub blacklisted : ℕ
  pub liked : ℕ

unfoldable pub my_listed : Bool → (FanItem → Option ℕ) → ℕ → Library → List ℕ
unfolding scalar_set
my_listed true column me lib =
    scalar_set column (where_rows (λ i. (i.fan_id == me) && i.is_wishlist) lib.fan_items)
my_listed false column me lib =
    scalar_set column (where_rows (λ i. (i.fan_id == me) && not i.is_wishlist) lib.fan_items)

-- `_is_followed`
unfoldable pub is_followed : ℕ → Library → Option ℕ → Option Text → Bool
unfolding scalar_set hosts_of followed_urls host_in url_host
is_followed me lib band_id url =
    opt_in band_id
      (scalar_set (λ (f : Follow). some f.band_id) (where_rows (λ f. f.fan_id == me) lib.follows))
    || host_in (url_host url) (hosts_of (followed_urls me lib.follows lib.bands))

unfoldable pub reasons_of : ℕ → ℕ → ℕ → Library → Columns → ℕ → Option ℕ → Option Text → Reasons
unfolding my_listed is_followed my_blocks my_likes liked_bands
reasons_of now me user lib col item band_id url = record {
  owned = contains item (my_listed false col.of_item me lib);
  wishlisted = contains item (my_listed true col.of_item me lib);
  followed = is_followed me lib band_id url;
  blacklisted =
      contains item (scalar_set col.of_block (my_blocks now user lib))
      || opt_in band_id (scalar_set (λ (b : Blocked). b.band_id) (my_blocks now user lib));
  liked =
      contains item (scalar_set col.of_like (my_likes user lib))
      || opt_in band_id (
          liked_bands (λ l. l.album_id) user lib.likes lib.albums
          ++ liked_bands (λ l. l.track_id) user lib.likes lib.tracks);
}

abbrev one_if : Bool → ℕ
one_if true = 1
one_if false = 0

-- `reasons[…] += 1`, where the reason holds.
unfoldable pub add_reasons : Reasons → ReasonCounts → ReasonCounts
add_reasons r n = record {
  owned = n.owned + one_if r.owned;
  wishlisted = n.wishlisted + one_if r.wishlisted;
  followed = n.followed + one_if r.followed;
  blacklisted = n.blacklisted + one_if r.blacklisted;
  liked = n.liked + one_if r.liked;
}

unfoldable pub tally_reasons :
    ℕ → ℕ → ℕ → Library → Columns → List Pair → ReasonCounts → ReasonCounts
unfolding reasons_of add_reasons
tally_reasons now me user lib col [] n = n
tally_reasons now me user lib col (p ∷ rows) n =
    tally_reasons now me user lib col rows
      (add_reasons (reasons_of now me user lib col p.item p.band_id p.url) n)

pub record ColdStartDiagnostics : Type 0 where
  pub neighbour_count : ℕ
  pub candidates : ℕ
  pub excluded_by_reason : ReasonCounts

abbrev no_reasons : ReasonCounts
no_reasons = record { owned = 0; wishlisted = 0; followed = 0; blacklisted = 0; liked = 0 }

-- For the fan `me`; without neighbours there are no candidates, and no reason is counted.
unfoldable pub cold_start_diagnostics : ℕ → ℕ → ℕ → Seeds → Library → ColdStartDiagnostics
unfolding seed_ids scan_neighbours distinct distinct_items owner_pairs tally_reasons
cold_start_diagnostics now me user seeds lib =
    let (seed_albums, seed_tracks) = seed_ids seeds me lib in
    let neighbours = scan_neighbours seed_albums seed_tracks me lib in
    let albums =
      distinct_items [] (owner_pairs neighbours (λ i. i.album_id) lib.fan_items lib.albums) in
    let tracks =
      distinct_items [] (owner_pairs neighbours (λ i. i.track_id) lib.fan_items lib.tracks) in
    record {
      neighbour_count = length (distinct neighbours);
      candidates = length albums + length tracks;
      excluded_by_reason =
          tally_reasons now me user lib track_columns tracks
            (tally_reasons now me user lib album_columns albums no_reasons);
    }
