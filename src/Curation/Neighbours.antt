-- ===== src/Curation/Neighbours.antt =====
-- The seeds, taste-neighbours, overlaps and tags of backend/app/curation/engine.py.
use bandcamp_curate.Base.{
  ℕ, ◌+◌, ◌&&◌, not, Option, none, some, List, [], ◌∷◌, ◌++◌, map, ◌==◌, if◌then◌else◌, any,
  contains, where_rows, count_rows, opt_is,
}
use bandcamp_curate.Curation.Tables.{Release, FanItem, Link, Library, scalar_set, opt_in}

-- `ScanKind`, with the resolved ids of the seeds of a custom scan.
pub data Seeds : Type 0 where
  collection : Seeds
  custom : List (Option ℕ) → List (Option ℕ) → Seeds

-- `_my_owned_ids`: albums and tracks owned, not wished for.
unfoldable pub owned : ℕ → Library → List FanItem
owned me lib = where_rows (λ i. (i.fan_id == me) && not i.is_wishlist) lib.fan_items

unfoldable pub my_owned_ids : ℕ → Library → List ℕ × List ℕ
unfolding owned scalar_set
my_owned_ids me lib = (
  scalar_set (λ (i : FanItem). i.album_id) (owned me lib),
  scalar_set (λ (i : FanItem). i.track_id) (owned me lib),
)

-- `_seed_ids`
unfoldable pub seed_ids : Seeds → ℕ → Library → List ℕ × List ℕ
unfolding my_owned_ids scalar_set
seed_ids collection me lib = my_owned_ids me lib
seed_ids (custom albums tracks) me lib = (scalar_set (λ o. o) albums, scalar_set (λ o. o) tracks)

-- The fans of a supporter table who support a seed, without the user.
unfoldable pub supporters_of : List ℕ → ℕ → List Link → List ℕ
supporters_of seeds me links =
    map (λ (l : Link). l.target)
      (where_rows (λ l. contains l.owner seeds && not (l.target == me)) links)

-- `_scan_neighbours`
unfoldable pub scan_neighbours : List ℕ → List ℕ → ℕ → Library → List ℕ
unfolding supporters_of
scan_neighbours seed_albums seed_tracks me lib =
    supporters_of seed_albums me lib.album_supporters
    ++ supporters_of seed_tracks me lib.track_supporters

-- `_neighbour_overlap`, for one fan: how many rows of `fan_items` of that fan are about my items.
-- A fan that is no neighbour has no entry, which reads as 0.
unfoldable pub neighbour_overlap : List ℕ → List ℕ → List ℕ → List FanItem → ℕ → ℕ
neighbour_overlap neighbours my_albums my_tracks items fan =
    if contains fan neighbours
    then count_rows (λ i. (i.fan_id == fan) && opt_in i.album_id my_albums) items
      + count_rows (λ i. (i.fan_id == fan) && opt_in i.track_id my_tracks) items
    else 0

-- The targets of one owner in a link table, in the order of the rows.
unfoldable pub targets : ℕ → List Link → List ℕ
targets owner links = map (λ (l : Link). l.target) (where_rows (λ l. l.owner == owner) links)

-- The band of a release, where both are known.
unfoldable pub band_of : ℕ → List Release → Option ℕ
band_of id [] = none
band_of id (r ∷ releases) = let rest = band_of id releases in if r.id == id then r.band_id else rest

abbrev band_tags_of : Option ℕ → List Link → List ℕ
band_tags_of none links = []
band_tags_of (some band) links = targets band links

-- `_effective_album_tags`, `_effective_track_tags`, for one item: its page's own tags, else its
-- band's. No tags at all is the missing entry, which every caller reads as the empty list.
unfoldable pub effective_tags : List Link → List Release → List Link → ℕ → List ℕ
unfolding targets band_of
effective_tags page_tags releases band_tags id = elim (targets id page_tags) [
  | [] ↦ band_tags_of (band_of id releases) band_tags
  | t ∷ ts ↦ t ∷ ts
]

-- How many of the items carry the tag.
unfoldable pub carried : (ℕ → List ℕ) → List ℕ → ℕ → ℕ
carried tags items tag = count_rows (λ i. contains tag (tags i)) items

-- The items of a set, each once.
unfoldable pub distinct : List ℕ → List ℕ
distinct [] = []
distinct (n ∷ ns) = let rest = distinct ns in if contains n rest then rest else n ∷ rest

-- `_my_tag_profile`, at one tag: the count is 0 where the profile has no entry.
unfoldable pub tag_profile : ℕ → Library → ℕ → ℕ
unfolding my_owned_ids distinct carried effective_tags
tag_profile me lib tag =
    let (albums, tracks) = my_owned_ids me lib in
    carried (effective_tags lib.album_tags lib.albums lib.band_tags) (distinct albums) tag
    + carried (effective_tags lib.track_tags lib.tracks lib.band_tags) (distinct tracks) tag

-- Whether a fan owns or wishes for an item of the table that `item` reads. (A row with an album id
-- is an album's, also where it has a track id.)
abbrev pub track_only : FanItem → Option ℕ
track_only i = elim i.album_id [ none ↦ i.track_id | some _ ↦ none ]

-- `_seed_tag_provenance`, at one candidate: the tags of each seed that a fan other than the user
-- supports who has the candidate. `item` picks the candidate's column. (Tags stand for their names.)
unfoldable pub provenance :
    List ℕ → (ℕ → List ℕ) → List Link → List FanItem → ℕ → (FanItem → Option ℕ) → ℕ → List ℕ
provenance seeds tags [] items me item candidate = []
provenance seeds tags (l ∷ links) items me item candidate =
    let rest = provenance seeds tags links items me item candidate in
    if contains l.owner seeds
      && any
          (λ (i : FanItem).
            (i.fan_id == l.target) && (not (i.fan_id == me) && opt_is (item i) candidate))
          items
    then tags l.owner ++ rest
    else rest

unfoldable pub seed_tag_provenance :
    List ℕ → List ℕ → ℕ → Library → (FanItem → Option ℕ) → ℕ → List ℕ
unfolding provenance effective_tags
seed_tag_provenance seed_albums seed_tracks me lib item candidate =
    provenance seed_albums (effective_tags lib.album_tags lib.albums lib.band_tags)
      lib.album_supporters lib.fan_items me item candidate
    ++ provenance seed_tracks (effective_tags lib.track_tags lib.tracks lib.band_tags)
        lib.track_supporters lib.fan_items me item candidate
