-- ===== src/Curation/SeedTags/Counts.antt =====
-- What the counts of `seed_tags` are (backend/app/curation/engine.py).
use bandcamp_curate.Base.{
  ℕ, suc, ◌+◌, Bool, ◌||◌, ◌&&◌, not, Option, List, [], ◌∷◌, ◌++◌, map, ◌≡◌, refl, ◌∙◌, ◌==◌,
  ==_iff, if◌then◌else◌, Text, same_text, same_text_iff, same_text_refl, any, any-append, contains,
  count_rows, arith, Bool-cases, inl, inr,
}
use bandcamp_curate.Curation.Tables.{FanItem, Link, Tag, Library, scalar_set}
use bandcamp_curate.Curation.Neighbours.{owned, distinct}
use bandcamp_curate.Curation.SeedTags.{
  Tagged, TagCount, names_of, tagged_as, tagged_rows, same_tagged, distinct_tagged, add_count,
  merge_counts, one_count, tag_query,
}

abbrev pub named : Text → TagCount → Bool
named v c = same_text v c.name

-- What is counted for a name.
unfoldable pub total_of : Text → List TagCount → ℕ
total_of v [] = 0
total_of v (c ∷ counts) = let rest = total_of v counts in if named v c then c.count + rest else rest

-- How many of the items carry a tag of that name, each item once.
unfoldable pub carriers : Text → List ℕ → List Link → List Tag → ℕ
carriers v items links tags =
    count_rows (λ i. any (same_text v) (names_of i links tags)) (distinct items)

total_of-add_count :
    (v name : Text) (n : ℕ) (counts : List TagCount)
    → total_of v (add_count name n counts)
      ≡ (if same_text v name then n + total_of v counts else total_of v counts)
unfolding total_of add_count
total_of-add_count v name n [] = ground arith
total_of-add_count v name n (c ∷ counts) = elim (Bool-cases (same_text c.name name)) [
  | inl e ↦ rw (e, (same_text_iff c.name name).0 e) (ground (arith, Bool-cases (same_text v name)))
  | inr e ↦ rw e (ground (arith, total_of-add_count v name n counts))
]

pub total_of-merge_counts :
    (v : Text) (counts acc : List TagCount)
    → total_of v (merge_counts counts acc) ≡ total_of v counts + total_of v acc
unfolding total_of merge_counts
total_of-merge_counts v [] acc = omega arith
total_of-merge_counts v (c ∷ counts) acc = ground (
  arith,
  total_of-merge_counts v counts (add_count c.name c.count acc),
  total_of-add_count v c.name c.count acc,
)

pub total_of-append :
    (v : Text) (xs ys : List TagCount) → total_of v (xs ++ ys) ≡ total_of v xs + total_of v ys
unfolding total_of
total_of-append v [] ys = omega arith
total_of-append v (c ∷ xs) ys = ground (arith, total_of-append v xs ys)

total_of-one_count :
    (v : Text) (rows : List Tagged)
    → total_of v (map one_count rows) ≡ count_rows (λ (r : Tagged). same_text v r.name) rows
unfolding total_of
total_of-one_count v [] = refl
total_of-one_count v (r ∷ rows) = ground (arith, total_of-one_count v rows)

-- The rows of a tagged item among others, by the name and by the item.
any-tagged_as :
    (v : Text) (i j : ℕ) (ns : List Text)
    → any (same_tagged (tagged_as i v)) (map (tagged_as j) ns) ≡ (j == i && any (same_text v) ns)
unfolding same_tagged
any-tagged_as v i j [] = ground arith
any-tagged_as v i j (n ∷ ns) = ground (arith, any-tagged_as v i j ns)

module _ (v : Text) (links : List Link) (tags : List Tag) where
  any-tagged_rows :
      (i : ℕ) (items : List ℕ)
      → any (same_tagged (tagged_as i v)) (tagged_rows items links tags)
        ≡ (contains i items && any (same_text v) (names_of i links tags))
  unfolding tagged_rows
  any-tagged_rows i [] = refl
  any-tagged_rows i (j ∷ items) =
      any-append (same_tagged (tagged_as i v)) (map (tagged_as j) (names_of j links tags))
        (tagged_rows items links tags)
      ∙ rw (any-tagged_as v i j (names_of j links tags), any-tagged_rows i items)
          (elim (Bool-cases (j == i)) [
            | inl e ↦ rw ((==_iff j i).0 e) (ground arith)
            | inr e ↦ ground (arith, e)
          ])

  -- Whether a row comes again among the rows of its item and those of other items.
  any-again :
      (n : Text) (i : ℕ) (ns : List Text) (rows : List Tagged)
      → any (same_tagged (tagged_as i n)) (map (tagged_as i) ns ++ rows)
        ≡ (any (same_text n) ns || any (same_tagged (tagged_as i n)) rows)
  any-again n i ns rows =
      any-append (same_tagged (tagged_as i n)) (map (tagged_as i) ns) rows
      ∙ rw (any-tagged_as n i i ns, (==_iff i i).1 refl) refl

  count_rows-distinct_tagged :
      (i : ℕ) (ns : List Text) (rows : List Tagged)
      → count_rows
          (λ (r : Tagged). same_text v r.name)
          (distinct_tagged (map (tagged_as i) ns ++ rows))
        ≡ (if any (same_text v) ns && not (any (same_tagged (tagged_as i v)) rows)
            then suc (count_rows (λ (r : Tagged). same_text v r.name) (distinct_tagged rows))
            else count_rows (λ (r : Tagged). same_text v r.name) (distinct_tagged rows))
  unfolding distinct_tagged
  count_rows-distinct_tagged i [] rows = refl
  count_rows-distinct_tagged i (n ∷ ns) rows = elim (Bool-cases (same_text v n)) [
    | inl e ↦ rw (← (same_text_iff v n).0 e) (
        ground
          (arith, any-again v i ns rows, count_rows-distinct_tagged i ns rows, same_text_refl v))
    | inr e ↦ ground (arith, e, count_rows-distinct_tagged i ns rows)
  ]

  contains-distinct : (i : ℕ) (items : List ℕ) → contains i (distinct items) ≡ contains i items
  unfolding distinct
  contains-distinct i [] = refl
  contains-distinct i (j ∷ items) =
      ground (arith, contains-distinct i items, contains-distinct j items, ==_iff j i)

  -- The rows of the query for a name are the items that carry it.
  count_rows-tagged_rows :
      (items : List ℕ)
      → count_rows
          (λ (r : Tagged). same_text v r.name)
          (distinct_tagged (tagged_rows items links tags))
        ≡ carriers v items links tags
  unfolding tagged_rows carriers distinct distinct_tagged
  count_rows-tagged_rows [] = refl
  count_rows-tagged_rows (i ∷ items) = ground (
    arith,
    count_rows-distinct_tagged i (names_of i links tags) (tagged_rows items links tags),
    any-tagged_rows i items,
    contains-distinct i items,
    count_rows-tagged_rows items,
  )

pub total_of-tag_query :
    (v : Text) (column : FanItem → Option ℕ) (me : ℕ) (links : List Link) (lib : Library)
    → total_of v (tag_query column me links lib)
      ≡ carriers v (scalar_set column (owned me lib)) links lib.tags
unfolding tag_query total_of
total_of-tag_query v column me links lib =
    let items = scalar_set column (owned me lib) in
    let rows = distinct_tagged (tagged_rows items links lib.tags) in
    omega (
      arith,
      total_of-merge_counts v (map one_count rows) [],
      total_of-one_count v rows,
      count_rows-tagged_rows v links lib.tags items,
    )
