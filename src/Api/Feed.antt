-- ===== src/Api/Feed.antt =====
-- backend/app/api/feed.py: which scan a feed is of, its tag for caches, its filters, its order, its
-- pages and its count. The rows of `recommendations` stand in the order of their ids.
pub mod Fresh
pub mod Curated
pub mod Whole
pub mod Pages
use bandcamp_curate.Base.{
  ℕ, zero, suc, ◌+◌, Bool, true, false, ◌&&◌, ◌||◌, not, Option, none, some, List, [], ◌∷◌, ◌++◌,
  ◌==◌, ltb, leb, if◌then◌else◌, Text, codes, decimal, same_text, find, any, contains, take,
  where_rows, count_rows, length, opt_is, Result, ok, raise, ◌>>=◌, invalid, not_found,
}
use bandcamp_curate.Curation.Tables.{Release, Band, Link, Tag, Library, opt_in}
use bandcamp_curate.Curation.Scoring.{Floats, ItemType, album, track, ScoredItem}
use bandcamp_curate.Scans.Tables.{
  collection, custom, ScanKind, Scan, Recommendation, Store, get_scan,
}
use bandcamp_curate.Api.Patterns.{substring_pattern, ilike}

unfoldable pub is_collection : ScanKind → Bool
is_collection collection = true
is_collection custom = false

unfoldable pub scan_id_of : Option Scan → Option ℕ
scan_id_of none = none
scan_id_of (some s) = some s.id

-- `_resolve_scan_id`; the scans stand in the order of their ids.
unfoldable pub resolve_scan_id : ℕ → Option ℕ → List Scan → Result (Option ℕ)
unfolding get_scan is_collection scan_id_of
resolve_scan_id user none scans =
    ok (scan_id_of (find (λ s. (s.user_id == user) && is_collection s.kind) scans))
resolve_scan_id user (some scan_id) scans = elim (get_scan scan_id scans) [
  | none ↦ raise not_found
  | some s ↦ if s.user_id == user then ok (some scan_id) else raise not_found
]

-- `_scan_generation`
unfoldable pub scan_generation : Option ℕ → List Scan → ℕ
unfolding get_scan
scan_generation none scans = 0
scan_generation (some sid) scans = elim (get_scan sid scans) [
  | none ↦ 0
  | some s ↦ s.recompute_generation
]

-- `_generation_etag`
unfoldable pub generation_etag : Option ℕ → ℕ → Text
generation_etag sid generation =
    codes "\"gen-"
    ++ (elim sid [ none ↦ codes "none" | some n ↦ decimal n ]
        ++ (codes "-" ++ (decimal generation ++ codes "\"")))

-- `art_url` of backend/app/bandcamp/art.py
unfoldable pub art_url : Option ℕ → Option Text
art_url none = none
art_url (some art_id) =
    some (codes "https://f4.bcbits.com/img/a" ++ (decimal art_id ++ codes "_10.jpg"))

-- The query parameters that filter; a tag is searched by its name or by a part of it.
pub record Filters : Type 0 where
  pub item_type : Option ItemType
  pub tag : List Text
  pub exclude_tag : List Text
  pub tag_contains : List Text
  pub exclude_tag_contains : List Text
  pub label_id : List ℕ
  pub exclude_label_id : List ℕ

pub data Sort : Type 0 where
  score neighbours affinity : Sort

abbrev is_empty : {A : Type 0} → List A → Bool
is_empty [] = true
is_empty (x ∷ xs) = false

abbrev pub all_of : {A : Type 0} → (A → Bool) → List A → Bool
all_of test [] = true
all_of test (x ∷ xs) = test x && all_of test xs

unfoldable pub same_item_type : ItemType → ItemType → Bool
same_item_type album album = true
same_item_type track track = true
same_item_type _ _ = false

-- `EXISTS` on the join of a link table and `tags`.
unfoldable pub linked : (Tag → Bool) → ℕ → List Link → List Tag → Bool
linked test item links tags =
    any (λ (l : Link). (l.owner == item) && any (λ (t : Tag). (t.id == l.target) && test t) tags)
      links

-- `notin_` on a column that may be NULL: a missing band is in no list, nor out of one.
unfoldable pub not_in : Option ℕ → List ℕ → Bool
not_in none ids = false
not_in (some band) ids = not (contains band ids)

unfoldable pub release_of_id : ℕ → List Release → Option Release
release_of_id id = find (λ r. r.id == id)

unfoldable pub band_of_id : Option ℕ → List Band → Option Band
band_of_id none bands = none
band_of_id (some id) bands = find (λ b. b.id == id) bands

abbrev field {ℓ} : {A : Type 0} {B : Type ℓ} → (A → Option B) → Option A → Option B
field f none = none
field f (some a) = f a

module _ {fl : Floats} where
  -- An item has one of the two ids, so one of the outer joins has a row for it, or none has.
  unfoldable pub item_release : Library → ScoredItem fl → Option Release
  unfolding release_of_id
  item_release lib i = elim i.item_type [
    | album ↦ release_of_id i.ident lib.albums
    | track ↦ release_of_id i.ident lib.tracks
  ]

  -- `coalesce(Album.band_id, Track.band_id)`
  unfoldable pub item_band : Library → ScoredItem fl → Option ℕ
  unfolding item_release
  item_band lib i = field (λ (r : Release). r.band_id) (item_release lib i)

  -- `_has_tag` and `_has_tag_like`, by the test of the tags.
  unfoldable pub carries : (Tag → Bool) → Library → ScoredItem fl → Bool
  unfolding linked
  carries test lib i = elim i.item_type [
    | album ↦ linked test i.ident lib.album_tags lib.tags
    | track ↦ linked test i.ident lib.track_tags lib.tags
  ]

  unfoldable pub has_tag : List Text → Library → ScoredItem fl → Bool
  unfolding carries same_text
  has_tag names = carries (λ t. any (λ n. same_text t.name n) names)

  unfoldable pub has_tag_like : (ℕ → ℕ) → List Text → Library → ScoredItem fl → Bool
  unfolding carries ilike substring_pattern
  has_tag_like fold substrings =
      carries (λ t. any (λ s. ilike fold false (substring_pattern s) t.name) substrings)

  -- `_apply_rec_filters`
  unfoldable pub apply_rec_filters : (ℕ → ℕ) → Filters → Library → ScoredItem fl → Bool
  unfolding same_item_type item_band not_in has_tag has_tag_like
  apply_rec_filters fold f lib i =
      elim f.item_type [ none ↦ true | some t ↦ same_item_type i.item_type t ]
      && ((is_empty f.label_id || opt_in (item_band lib i) f.label_id)
          && ((is_empty f.exclude_label_id || not_in (item_band lib i) f.exclude_label_id)
              && (all_of (λ t. has_tag (t ∷ []) lib i) f.tag
                  && (all_of (λ s. has_tag_like fold (s ∷ []) lib i) f.tag_contains
                      && ((is_empty f.exclude_tag || not (has_tag f.exclude_tag lib i))
                          && (is_empty f.exclude_tag_contains
                              || not (has_tag_like fold f.exclude_tag_contains lib i)))))))

  -- `Recommendation.scan_id == sid`; no row has none.
  unfoldable pub of_feed : Option ℕ → Recommendation fl → Bool
  of_feed none r = false
  of_feed (some sid) r = r.scan_id == sid

  -- The WHERE of the page and of the count.
  unfoldable pub selected : (ℕ → ℕ) → Filters → Option ℕ → Library → Recommendation fl → Bool
  unfolding apply_rec_filters of_feed
  selected fold f sid lib r = apply_rec_filters fold f lib r.item && of_feed sid r

  -- `_rec_order` before the id: the second item comes strictly before the first. Every stored item
  -- has both keys of `reasons`.
  unfoldable pub overtakes : Sort → ScoredItem fl → ScoredItem fl → Bool
  overtakes score a b = fl.less a.score b.score
  overtakes neighbours a b =
      ltb a.co_owners b.co_owners || ((a.co_owners == b.co_owners) && fl.less a.score b.score)
  overtakes affinity a b =
      ltb a.affinity b.affinity || ((a.affinity == b.affinity) && fl.less a.score b.score)

  -- Rows that tie stay in the order of their ids.
  unfoldable pub place_row :
      Sort → Recommendation fl → List (Recommendation fl) → List (Recommendation fl)
  unfolding overtakes
  place_row sort r [] = r ∷ []
  place_row sort r (s ∷ rows) =
      let rest = place_row sort r rows in
      if overtakes sort r.item s.item then s ∷ rest else r ∷ s ∷ rows

  unfoldable pub order_rows : Sort → List (Recommendation fl) → List (Recommendation fl)
  unfolding place_row
  order_rows sort [] = []
  order_rows sort (r ∷ rows) = place_row sort r (order_rows sort rows)

  unfoldable pub recommendations_count : (ℕ → ℕ) → ℕ → Filters → Option ℕ → Store fl → Result ℕ
  unfolding resolve_scan_id selected
  recommendations_count fold user f scan_id st = resolve_scan_id user scan_id st.scans >>= λ sid.
      ok (count_rows (selected fold f sid st.library) st.recommendations)
