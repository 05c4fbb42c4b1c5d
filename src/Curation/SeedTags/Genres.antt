-- ===== src/Curation/SeedTags/Genres.antt =====
-- What `seed_tags` offers (backend/app/curation/engine.py).
use bandcamp_curate.Base.{
  sort_rows-IsOrdered, false, count_rows-sort_rows, IsOrdered, true, sort_rows, ltb, ℕ, ◌+◌, Bool,
  Option, List, [], ◌∷◌, ◌++◌, map, ◌≡◌, refl, if◌then◌else◌, Text, same_text, same_text_iff, max,
  ap, place, any, any-append, count_rows, arith, Bool-cases, inl, inr,
}
use bandcamp_curate.Curation.Tables.{FanItem, Link, Library, scalar_set}
use bandcamp_curate.Curation.Neighbours.{owned}
use bandcamp_curate.Curation.SeedTags.{
  ranks_above, text_less, seed_tags, Tagged, TagCount, tagged_rows, distinct_tagged, add_count,
  merge_counts, one_count, tag_query,
}
use bandcamp_curate.Curation.SeedTags.Counts.{
  named, total_of, carriers, total_of-merge_counts, total_of-append, total_of-tag_query,
}

count_rows-add_count :
    (v name : Text) (n : ℕ) (counts : List TagCount)
    → count_rows (named v) (add_count name n counts) ≡ (
        if same_text v name
        then max 1 (count_rows (named v) counts)
        else count_rows (named v) counts)
unfolding add_count
count_rows-add_count v name n [] = ground arith
count_rows-add_count v name n (c ∷ counts) = elim (Bool-cases (same_text c.name name)) [
  | inl e ↦ rw (e, (same_text_iff c.name name).0 e) (ground (arith, Bool-cases (same_text v name)))
  | inr e ↦ rw e (
      ground (
        arith,
        e,
        count_rows-add_count v name n counts,
        same_text_iff v name,
        same_text_iff v c.name,
        ap (λ s. same_text c.name s),
      ))
]

count_rows-merge_counts :
    (v : Text) (counts acc : List TagCount)
    → count_rows (named v) (merge_counts counts acc) ≡ (
        if any (named v) counts then max 1 (count_rows (named v) acc) else count_rows (named v) acc)
unfolding merge_counts
count_rows-merge_counts v [] acc = refl
count_rows-merge_counts v (c ∷ counts) acc = ground (
  arith,
  count_rows-merge_counts v counts (add_count c.name c.count acc),
  count_rows-add_count v c.name c.count acc,
)

any-count_rows :
    {A : Type 0} (test : A → Bool) (xs : List A) → any test xs ≡ ltb 0 (count_rows test xs)
any-count_rows test [] = refl
any-count_rows test (x ∷ xs) = ground (arith, any-count_rows test xs)

any-one_count :
    (v : Text) (rows : List Tagged)
    → any (named v) (map one_count rows) ≡ ltb 0 (total_of v (map one_count rows))
unfolding total_of
any-one_count v [] = refl
any-one_count v (r ∷ rows) = ground (arith, any-one_count v rows)

any-merge_counts :
    (v : Text) (rows : List Tagged)
    → any (named v) (merge_counts (map one_count rows) [])
      ≡ ltb 0 (total_of v (merge_counts (map one_count rows) []))
unfolding total_of
any-merge_counts v rows = ground (
  arith,
  any-count_rows (named v) (merge_counts (map one_count rows) []),
  count_rows-merge_counts v (map one_count rows) [],
  total_of-merge_counts v (map one_count rows) [],
  any-one_count v rows,
)

-- A name is in the rows of a query just if an item carries it.
any-tag_query :
    (v : Text) (column : FanItem → Option ℕ) (me : ℕ) (links : List Link) (lib : Library)
    → any (named v) (tag_query column me links lib)
      ≡ ltb 0 (total_of v (tag_query column me links lib))
unfolding tag_query
any-tag_query v column me links lib =
    any-merge_counts v
      (distinct_tagged (tagged_rows (scalar_set column (owned me lib)) links lib.tags))

text_less-asym : (s t : Text) → text_less s t ≡ true → text_less t s ≡ false
unfolding text_less
text_less-asym s [] h = ground arith
text_less-asym [] (b ∷ t) h = refl
text_less-asym (a ∷ s) (b ∷ t) h = ground (arith, text_less-asym s t)

ranks_above-asym : (a b : TagCount) → ranks_above a b ≡ true → ranks_above b a ≡ false
unfolding ranks_above
ranks_above-asym a b h = ground (arith, h, text_less-asym a.name b.name)

total_of-place :
    (v : Text) (c : TagCount) (counts : List TagCount)
    → total_of v (place ranks_above c counts) ≡ total_of v (c ∷ counts)
unfolding total_of place
total_of-place v c [] = refl
total_of-place v c (d ∷ counts) = ground (arith, total_of-place v c counts)

total_of-sort_rows :
    (v : Text) (counts : List TagCount)
    → total_of v (sort_rows ranks_above counts) ≡ total_of v counts
unfolding total_of sort_rows
total_of-sort_rows v [] = refl
total_of-sort_rows v (c ∷ counts) =
    ground (arith, total_of-place v c (sort_rows ranks_above counts), total_of-sort_rows v counts)

-- How many of the albums and tracks that a fan owns carry a tag of that name.
unfoldable pub genre_count : Text → ℕ → Library → ℕ
unfolding carriers
genre_count v me lib =
    carriers v (scalar_set (λ (i : FanItem). i.album_id) (owned me lib)) lib.album_tags lib.tags
    + carriers v (scalar_set (λ (i : FanItem). i.track_id) (owned me lib)) lib.track_tags lib.tags

pub record IsGenres (me : ℕ) (lib : Library) (counts : List TagCount) : Type 0 where
  pub counted : (v : Text) → total_of v counts ≡ genre_count v me lib
  pub once :
      (v : Text) → count_rows (named v) counts ≡ (if ltb 0 (genre_count v me lib) then 1 else 0)
  pub ordered : IsOrdered ranks_above counts

-- The genres that are offered for a fan: a name is listed just if an album or a track that the fan
-- owns carries a tag of that name, and then once, with the number of such albums and tracks,
-- however many rows of items and links lead to them; more frequent names come first, and names of
-- one frequency in the order of their code points.
pub seed_tags-IsGenres : (me : ℕ) (lib : Library) → IsGenres me lib (seed_tags me lib)
unfolding seed_tags genre_count total_of
seed_tags-IsGenres me lib =
    let albums = tag_query (λ i. i.album_id) me lib.album_tags lib in
    let tracks = tag_query (λ i. i.track_id) me lib.track_tags lib in
    let merged = merge_counts (albums ++ tracks) [] in
    record {
      counted = λ v. omega (
        arith,
        total_of-sort_rows v merged,
        total_of-merge_counts v (albums ++ tracks) [],
        total_of-append v albums tracks,
        total_of-tag_query v (λ i. i.album_id) me lib.album_tags lib,
        total_of-tag_query v (λ i. i.track_id) me lib.track_tags lib,
      );
      once = λ v. ground (
        arith,
        count_rows-sort_rows ranks_above (named v) merged,
        count_rows-merge_counts v (albums ++ tracks) [],
        any-append (named v) albums tracks,
        any-tag_query v (λ i. i.album_id) me lib.album_tags lib,
        any-tag_query v (λ i. i.track_id) me lib.track_tags lib,
        total_of-tag_query v (λ i. i.album_id) me lib.album_tags lib,
        total_of-tag_query v (λ i. i.track_id) me lib.track_tags lib,
      );
      ordered = sort_rows-IsOrdered ranks_above ranks_above-asym merged;
    }
