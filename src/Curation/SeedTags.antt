-- ===== src/Curation/SeedTags.antt =====
-- `seed_tags` of backend/app/curation/engine.py: the genres of the user's own items. A name is
-- compared by its code points, as Python compares strings.
pub mod Counts
pub mod Genres
use bandcamp_curate.Base.{
  sort_rows, ℕ, ◌+◌, Bool, true, false, ◌||◌, ◌&&◌, Option, List, [], ◌∷◌, ◌++◌, map, ◌==◌, ltb,
  if◌then◌else◌, Text, same_text, any, where_rows,
}
use bandcamp_curate.Curation.Tables.{FanItem, Link, Tag, Library, scalar_set}
use bandcamp_curate.Curation.Neighbours.{owned}

-- A row of the join: the name of a tag, and the item that has it.
pub record Tagged : Type 0 where
  pub name : Text
  pub item : ℕ

-- A name with the number of items that carry it.
pub record TagCount : Type 0 where
  pub name : Text
  pub count : ℕ

-- The names of a tag's id, and of an item in a link table.
unfoldable pub tag_names : ℕ → List Tag → List Text
tag_names id tags = map (λ (t : Tag). t.name) (where_rows (λ (t : Tag). t.id == id) tags)

unfoldable pub names_of : ℕ → List Link → List Tag → List Text
unfolding tag_names
names_of item [] tags = []
names_of item (l ∷ links) tags =
    let rest = names_of item links tags in
    if l.owner == item then tag_names l.target tags ++ rest else rest

abbrev pub tagged_as : ℕ → Text → Tagged
tagged_as item name = record { name = name; item = item }

-- The join of the fan's items, a link table and `tags`, an item at a time.
unfoldable pub tagged_rows : List ℕ → List Link → List Tag → List Tagged
unfolding names_of
tagged_rows [] links tags = []
tagged_rows (i ∷ items) links tags =
    map (tagged_as i) (names_of i links tags) ++ tagged_rows items links tags

unfoldable pub same_tagged : Tagged → Tagged → Bool
unfolding same_text
same_tagged a b = same_text a.name b.name && (a.item == b.item)

-- `count(DISTINCT item)` takes a row once.
unfoldable pub distinct_tagged : List Tagged → List Tagged
unfolding same_tagged
distinct_tagged [] = []
distinct_tagged (r ∷ rows) =
    let rest = distinct_tagged rows in if any (same_tagged r) rows then rest else r ∷ rest

-- `counts[name] = counts.get(name, 0) + n`
unfoldable pub add_count : Text → ℕ → List TagCount → List TagCount
unfolding same_text
add_count name n [] = record { name = name; count = n } ∷ []
add_count name n (c ∷ counts) =
    let rest = add_count name n counts in
    if same_text c.name name then record c { count = c.count + n } ∷ counts else c ∷ rest

-- The loop over the rows of the two queries.
unfoldable pub merge_counts : List TagCount → List TagCount → List TagCount
unfolding add_count
merge_counts [] acc = acc
merge_counts (c ∷ counts) acc = merge_counts counts (add_count c.name c.count acc)

-- `<` of two strings.
unfoldable pub text_less : Text → Text → Bool
text_less s [] = false
text_less [] (b ∷ t) = true
text_less (a ∷ s) (b ∷ t) = ltb a b || ((a == b) && text_less s t)

-- The key `(-count, name)` of the first is strictly smaller.
unfoldable pub ranks_above : TagCount → TagCount → Bool
unfolding text_less
ranks_above a b = ltb b.count a.count || ((a.count == b.count) && text_less a.name b.name)

abbrev pub one_count : Tagged → TagCount
one_count r = record { name = r.name; count = 1 }

-- One of the two queries (the rows are grouped by the name), by its column and its link table.
unfoldable pub tag_query : (FanItem → Option ℕ) → ℕ → List Link → Library → List TagCount
unfolding owned scalar_set tagged_rows distinct_tagged merge_counts
tag_query column me links lib =
    merge_counts
      (map one_count
        (distinct_tagged (tagged_rows (scalar_set column (owned me lib)) links lib.tags)))
      []

unfoldable pub seed_tags : ℕ → Library → List TagCount
unfolding tag_query merge_counts sort_rows ranks_above
seed_tags me lib = sort_rows ranks_above (
    merge_counts
      (tag_query (λ i. i.album_id) me lib.album_tags lib
        ++ tag_query (λ i. i.track_id) me lib.track_tags lib)
      [])
