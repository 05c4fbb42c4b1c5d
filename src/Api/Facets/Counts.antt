-- ===== src/Api/Facets/Counts.antt =====
-- The counts of the facets (backend/app/api/feed.py).
use bandcamp_curate.Base.{
  ℕ, suc, ◌+◌, Bool, Option, List, [], ◌∷◌, ◌≡◌, refl, ap, ◌∙◌, map, if◌then◌else◌, Text, same_text,
  same_text_iff, count_rows, arith, Bool-cases, inl, inr,
}
use bandcamp_curate.Api.Facets.{Group, count_in, group_rows, place_group, order_groups, tag_row}

-- What is counted for a value.
unfoldable pub total_of : Text → List Group → ℕ
total_of v [] = 0
total_of v (g ∷ groups) =
    let rest = total_of v groups in if same_text v g.value then g.count + rest else rest

total_of-count_in :
    (v name : Text) (groups : List Group)
    → total_of v (count_in (tag_row name) groups)
      ≡ (if same_text v name then suc (total_of v groups) else total_of v groups)
unfolding total_of count_in
total_of-count_in v name [] = ground arith
total_of-count_in v name (g ∷ groups) = elim (Bool-cases (same_text name g.value)) [
  | inl e ↦ rw e (
      ground (
        arith,
        ap (λ n. same_text v n) ((same_text_iff name g.value).0 e),
        Bool-cases (same_text v g.value),
      ))
  | inr e ↦ rw e (ground (arith, total_of-count_in v name groups))
]

total_of-place_group :
    (earlier : Option Text → Option Text → Bool) (v : Text) (f : Group) (groups : List Group)
    → total_of v (place_group earlier f groups) ≡ total_of v (f ∷ groups)
unfolding total_of place_group
total_of-place_group earlier v f [] = refl
total_of-place_group earlier v f (g ∷ groups) =
    ground (arith, total_of-place_group earlier v f groups)

total_of-order_groups :
    (earlier : Option Text → Option Text → Bool) (v : Text) (groups : List Group)
    → total_of v (order_groups earlier groups) ≡ total_of v groups
unfolding order_groups total_of
total_of-order_groups earlier v [] = refl
total_of-order_groups earlier v (f ∷ groups) = ground (
  arith,
  total_of-place_group earlier v f (order_groups earlier groups),
  total_of-order_groups earlier v groups,
)

total_of-group :
    (v : Text) (names : List Text)
    → total_of v (group_rows (map tag_row names)) ≡ count_rows (same_text v) names
unfolding group_rows total_of
total_of-group v [] = refl
total_of-group v (name ∷ names) =
    ground
      (arith, total_of-count_in v name (group_rows (map tag_row names)), total_of-group v names)

-- The facet of a tag counts the rows of the join that have its name.
pub total_of-group_rows :
    (earlier : Option Text → Option Text → Bool) (v : Text) (names : List Text)
    → total_of v (order_groups earlier (group_rows (map tag_row names)))
      ≡ count_rows (same_text v) names
total_of-group_rows earlier v names =
    total_of-order_groups earlier v (group_rows (map tag_row names)) ∙ total_of-group v names
