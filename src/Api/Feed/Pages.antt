-- ===== src/Api/Feed/Pages.antt =====
-- The endpoint `recommendations` of backend/app/api/feed.py.
use bandcamp_curate.Base.{
  ℕ, zero, suc, ◌+◌, Bool, false, ◌&&◌, not, Option, none, some, List, [], ◌∷◌, leb, if◌then◌else◌,
  Text, same_text, take, where_rows, Result, ok, raise, ◌>>=◌, invalid,
}
use bandcamp_curate.Curation.Tables.{Release, Band, Library}
use bandcamp_curate.Curation.Scoring.{Floats, ItemType, album, track, ScoredItem}
use bandcamp_curate.Scans.Tables.{Recommendation, Store}
use bandcamp_curate.Api.Feed.{
  Filters, Sort, resolve_scan_id, scan_generation, generation_etag, art_url, item_release,
  item_band, band_of_id, selected, order_rows,
}

abbrev field : {A B : Type 0} → (A → Option B) → Option A → Option B
field f none = none
field f (some a) = f a

-- `OFFSET`
abbrev pub drop {ℓ} : {A : Type ℓ} → ℕ → List A → List A
drop zero xs = xs
drop (suc n) [] = []
drop (suc n) (x ∷ xs) = drop n xs

unfoldable pub album_ref : ItemType → ℕ → Option ℕ
album_ref album id = some id
album_ref track id = none

unfoldable pub track_ref : ItemType → ℕ → Option ℕ
track_ref album id = none
track_ref track id = some id

module _ (fl : Floats) (fold : ℕ → ℕ) (round_2 : fl.F → fl.F) where
  pub record RecommendationOut : Type 0 where
    pub rank : ℕ
    pub item_type : ItemType
    pub score : fl.F
    pub album_id : Option ℕ
    pub track_id : Option ℕ
    pub title : Option Text
    pub band_id : Option ℕ
    pub band_name : Option Text
    pub url : Option Text
    pub art_id : Option ℕ
    pub art_url : Option Text
    pub co_owners : ℕ
    pub tag_affinity : ℕ
    pub seed_tags : List ℕ
    pub recompute_generation : ℕ

  unfoldable pub row_out : Library → ℕ → ℕ → ScoredItem fl → RecommendationOut
  unfolding album_ref track_ref item_release item_band band_of_id art_url
  row_out lib generation rank i =
      let release = item_release lib i in
      record {
        rank = rank;
        item_type = i.item_type;
        score = round_2 i.score;
        album_id = album_ref i.item_type i.ident;
        track_id = track_ref i.item_type i.ident;
        title = field (λ (r : Release). r.title) release;
        band_id = item_band lib i;
        band_name = field (λ (b : Band). b.name) (band_of_id (item_band lib i) lib.bands);
        url = field (λ (r : Release). r.url) release;
        art_id = field (λ (r : Release). r.art_id) release;
        art_url = art_url (field (λ (r : Release). r.art_id) release);
        co_owners = i.co_owners;
        tag_affinity = i.affinity;
        seed_tags = i.seed_tags;
        recompute_generation = generation;
      }

  -- `enumerate(rows)`, with `rank = offset + i + 1`.
  unfoldable pub ranked : Library → ℕ → ℕ → List (Recommendation fl) → List RecommendationOut
  unfolding row_out
  ranked lib generation offset [] = []
  ranked lib generation offset (r ∷ rows) =
      row_out lib generation (offset + 1) r.item ∷ ranked lib generation (offset + 1) rows

  -- The query without LIMIT and OFFSET.
  unfoldable pub feed_rows : Filters → Sort → Option ℕ → Store fl → List (Recommendation fl)
  unfolding order_rows selected
  feed_rows f sort sid st =
      order_rows sort (where_rows (selected fold f sid st.library) st.recommendations)

  unfoldable pub page_of : Filters → Sort → Option ℕ → ℕ → ℕ → Store fl → List RecommendationOut
  unfolding feed_rows ranked scan_generation
  page_of f sort sid limit offset st =
      ranked st.library (scan_generation sid st.scans) offset
        (take limit (drop offset (feed_rows f sort sid st)))

  -- 304 with the tag, or 200 with the tag and the rows.
  pub data Response : Type 0 where
    not_modified : Text → Response
    page : Text → List RecommendationOut → Response

  -- `if_none_match == etag`
  unfoldable pub matches : Option Text → Text → Bool
  unfolding same_text
  matches none etag = false
  matches (some t) etag = same_text t etag

  unfoldable pub respond : Filters → Sort → Option Text → Option ℕ → ℕ → ℕ → Store fl → Response
  unfolding scan_generation generation_etag matches page_of
  respond f sort if_none_match sid limit offset st =
      let etag = generation_etag sid (scan_generation sid st.scans) in
      if matches if_none_match etag
      then not_modified etag
      else page etag (page_of f sort sid limit offset st)

  -- `recommendations`, with the bounds of `limit`.
  unfoldable pub recommendations :
      ℕ → Filters → Sort → Option Text → Option ℕ → ℕ → ℕ → Store fl → Result Response
  unfolding resolve_scan_id respond
  recommendations user f sort if_none_match scan_id limit offset st =
      if not (leb 1 limit && leb limit 200)
      then raise invalid
      else (resolve_scan_id user scan_id st.scans >>= λ sid.
          ok (respond f sort if_none_match sid limit offset st))
