-- ===== src/Api/Facets.antt =====
-- The endpoint `facets` of backend/app/api/feed.py. Names are compared in the collation of the
-- database.
pub mod Counts
use bandcamp_curate.Base.{
  ℕ, suc, Bool, ◌||◌, ◌&&◌, Option, none, some, List, [], ◌∷◌, ◌++◌, map, ◌==◌, ltb, if◌then◌else◌,
  Text, codes, decimal, same_text, take, where_rows, Result, ok, ◌>>=◌,
}
use bandcamp_curate.Curation.Tables.{Link, Tag, Library}
use bandcamp_curate.Curation.Scoring.{Floats, album, track, ScoredItem}
use bandcamp_curate.Curation.SeedTags.{TagCount, seed_tags}
use bandcamp_curate.Scans.Curate.{get_me}
use bandcamp_curate.Scans.Tables.{User, Recommendation, Store}
use bandcamp_curate.Api.Ownership.{text_or}
use bandcamp_curate.Api.Feed.{
  resolve_scan_id, scan_generation, generation_etag, of_feed, item_band, band_of_id,
}

pub record Facet : Type 0 where
  pub value : Text
  pub label : Text
  pub count : ℕ

pub record FacetsOut : Type 0 where
  pub tags : List Facet
  pub labels : List Facet
  pub seed_tags : List Facet

-- A row of the grouped queries.
pub record Group : Type 0 where
  pub value : Text
  pub name : Option Text
  pub count : ℕ

unfoldable pub tag_facet : Group → Facet
tag_facet g = record { value = g.value; label = g.value; count = g.count }

unfoldable pub label_text : Option Text → Text
label_text none = codes "unknown"
label_text (some n) = n

-- `name or "unknown"`
unfoldable pub label_facet : Group → Facet
unfolding text_or label_text
label_facet g = record {
  value = g.value;
  label = label_text (text_or g.name none);
  count = g.count;
}

unfoldable pub seed_facet : TagCount → Facet
seed_facet c = record { value = c.name; label = c.name; count = c.count }

-- The names of an item in the join of a link table and `tags`.
unfoldable pub names_of_tag : ℕ → List Tag → List Text
names_of_tag id tags = map (λ t. t.name) (where_rows (λ t. t.id == id) tags)

unfoldable pub linked_names : ℕ → List Link → List Tag → List Text
unfolding names_of_tag
linked_names item [] tags = []
linked_names item (l ∷ links) tags =
    let rest = linked_names item links tags in
    if l.owner == item then names_of_tag l.target tags ++ rest else rest

-- `GROUP BY` and the counts: a row for each value.
unfoldable pub count_in : Group → List Group → List Group
unfolding same_text
count_in f [] = f ∷ []
count_in f (g ∷ groups) =
    let rest = count_in f groups in
    if same_text f.value g.value then record g { count = suc g.count } ∷ groups else g ∷ rest

unfoldable pub group_rows : List Group → List Group
unfolding count_in
group_rows [] = []
group_rows (f ∷ rows) = count_in f (group_rows rows)

-- `ORDER BY count(*) DESC, name`
unfoldable pub place_group : (Option Text → Option Text → Bool) → Group → List Group → List Group
place_group earlier f [] = f ∷ []
place_group earlier f (g ∷ groups) =
    let rest = place_group earlier f groups in
    if ltb f.count g.count || ((f.count == g.count) && earlier g.name f.name)
    then g ∷ rest
    else f ∷ g ∷ groups

unfoldable pub order_groups : (Option Text → Option Text → Bool) → List Group → List Group
unfolding place_group
order_groups earlier [] = []
order_groups earlier (f ∷ groups) = place_group earlier f (order_groups earlier groups)

abbrev pub tag_row : Text → Group
tag_row name = record { value = name; name = some name; count = 1 }

module _ {fl : Floats} where
  -- A recommendation has one of the two ids, so it is in one of the two parts of the union.
  unfoldable pub tag_names : Library → ScoredItem fl → List Text
  unfolding linked_names
  tag_names lib i = elim i.item_type [
    | album ↦ linked_names i.ident lib.album_tags lib.tags
    | track ↦ linked_names i.ident lib.track_tags lib.tags
  ]

  unfoldable pub tag_rows : Option ℕ → Library → List (Recommendation fl) → List Text
  unfolding tag_names of_feed
  tag_rows sid lib [] = []
  tag_rows sid lib (r ∷ recs) =
      let rest = tag_rows sid lib recs in
      if of_feed sid r then tag_names lib r.item ++ rest else rest

  -- The labels' join is an inner one: a recommendation without a band is not counted.
  unfoldable pub label_rows : Option ℕ → Library → List (Recommendation fl) → List Group
  unfolding item_band band_of_id of_feed
  label_rows sid lib [] = []
  label_rows sid lib (r ∷ recs) =
      let rest = label_rows sid lib recs in
      if of_feed sid r
      then elim (band_of_id (item_band lib r.item) lib.bands) [
        | none ↦ rest
        | some b ↦ record { value = decimal b.id; name = b.name; count = 1 } ∷ rest
      ]
      else rest

  unfoldable pub facets_out :
      (Option Text → Option Text → Bool) → List Facet → Option ℕ → Store fl → FacetsOut
  unfolding tag_rows label_rows group_rows order_groups tag_facet label_facet
  facets_out earlier seeds sid st = record {
    tags = map tag_facet (
        order_groups earlier
          (group_rows (map tag_row (tag_rows sid st.library st.recommendations))));
    labels = map label_facet (
        take 200
          (order_groups earlier (group_rows (label_rows sid st.library st.recommendations))));
    seed_tags = seeds;
  }

  -- The genres of the caller's own items; a user without a fan has none.
  unfoldable pub seed_facets : User → Store fl → Result (List Facet)
  unfolding get_me seed_tags seed_facet
  seed_facets user st = elim user.fan_id [
    | none ↦ ok []
    | some _ ↦ get_me user st.fans >>= λ me. ok (map seed_facet (seed_tags me st.library))
  ]

  unfoldable pub fresh_facets :
      (Option Text → Option Text → Bool)
      → User
      → Text
      → Option ℕ
      → Store fl
      → Result (Text × Option FacetsOut)
  unfolding seed_facets facets_out
  fresh_facets earlier user etag sid st =
      seed_facets user st >>= λ seeds. ok (etag, some (facets_out earlier seeds sid st))

  -- `facets`: 304 with the tag, or 200 with the tag and the facets.
  unfoldable pub facets :
      (Option Text → Option Text → Bool)
      → User
      → Option Text
      → Option ℕ
      → Store fl
      → Result (Text × Option FacetsOut)
  unfolding resolve_scan_id generation_etag scan_generation fresh_facets same_text
  facets earlier user if_none_match scan_id st = resolve_scan_id user.id scan_id st.scans >>= λ sid.
      let etag = generation_etag sid (scan_generation sid st.scans) in
      let fresh = fresh_facets earlier user etag sid st in
      elim if_none_match [
        | none ↦ fresh
        | some t ↦ if same_text t etag then ok (etag, none) else fresh
      ]
