-- ===== src/Curation/Sizes.antt =====
-- `neighbour_size_report` of backend/app/curation/engine.py: what the neighbours contribute, by the
-- size of their collections. A set of fans is a list of them in some order, each once.
pub mod Columns
pub mod Labels
pub mod Partition
use bandcamp_curate.Base.{
  ℕ, suc, ◌+◌, Bool, not, ◌&&◌, Option, none, some, List, [], ◌∷◌, ◌++◌, ◌==◌, ltb, if◌then◌else◌,
  Text, codes, decimal, same_text, find, contains, count_rows, length, sort_rows,
}
use bandcamp_curate.Curation.Tables.{FanItem, Library}
use bandcamp_curate.Curation.Exclusions.{Exclusions, excluded, build_exclusions}
use bandcamp_curate.Curation.Neighbours.{
  Seeds, seed_ids, scan_neighbours, my_owned_ids, neighbour_overlap, distinct,
}
use bandcamp_curate.Curation.Scoring.{Floats, Pair, owner_pairs, damped_overlap_weight}

abbrev pub neighbour_size_buckets : List ℕ
neighbour_size_buckets = 50 ∷ 200 ∷ 1000 ∷ 5000 ∷ []

-- `_collection_sizes`, at one fan; a fan without an entry has none.
unfoldable pub collection_size : ℕ → Library → ℕ
collection_size fan lib =
    count_rows (λ (i : FanItem). (i.fan_id == fan) && not i.is_wishlist) lib.fan_items

-- `_tally`, at one fan.
unfoldable pub votes_in : List ℕ → Exclusions → ℕ → List Pair → ℕ
unfolding excluded
votes_in ids excl fan rows =
    count_rows (λ (p : Pair). (p.fan_id == fan) && not (excluded ids excl p.item p.band_id p.url))
      rows

-- `_candidate_vote_counts`, at one fan.
unfoldable pub candidate_votes : List ℕ → Exclusions → Library → ℕ → ℕ
unfolding votes_in owner_pairs
candidate_votes neighbours excl lib fan =
    votes_in excl.album_ids excl fan
      (owner_pairs neighbours (λ i. i.album_id) lib.fan_items lib.albums)
    + votes_in excl.track_ids excl fan
        (owner_pairs neighbours (λ i. i.track_id) lib.fan_items lib.tracks)

unfoldable pub range_label : ℕ → ℕ → Text
range_label lo b = decimal lo ++ (codes "-" ++ decimal b)

unfoldable pub last_of : ℕ → List ℕ → ℕ
last_of b [] = b
last_of b (c ∷ bounds) = last_of c bounds

-- `f"{bounds[-1]}+"`; without bounds the index is out of range.
unfoldable pub top_label : List ℕ → Option Text
unfolding last_of
top_label [] = none
top_label (b ∷ bounds) = some (decimal (last_of b bounds) ++ codes "+")

-- The loop of `_size_bucket_label`, from the lower bound `lo`.
unfoldable pub label_from : ℕ → ℕ → List ℕ → Option Text
unfolding range_label
label_from lo size [] = none
label_from lo size (b ∷ bounds) =
    let rest = label_from b size bounds in if ltb size b then some (range_label lo b) else rest

unfoldable pub size_bucket_label : ℕ → List ℕ → Option Text
unfolding label_from top_label
size_bucket_label size bounds = elim (label_from 0 size bounds) [
  | some l ↦ some l
  | none ↦ top_label bounds
]

unfoldable pub labels_from : ℕ → List ℕ → List Text
unfolding range_label
labels_from lo [] = []
labels_from lo (b ∷ bounds) = range_label lo b ∷ labels_from b bounds

-- `_size_bucket_order`
unfoldable pub size_bucket_order : List ℕ → Option (List Text)
unfolding labels_from top_label
size_bucket_order bounds = elim (top_label bounds) [
  | none ↦ none
  | some l ↦ some (labels_from 0 bounds ++ l ∷ [])
]

-- The float operations of the shares: of two integers, of two floats, and whether a float is 0.
pub record Shares (fl : Floats) : Type 0 where
  pub ratio : ℕ → ℕ → fl.F
  pub divide : fl.F → fl.F → fl.F
  pub is_zero : fl.F → Bool

-- A row of `agg`.
pub record Bucket (fl : Floats) : Type 0 where
  pub bucket : Text
  pub neighbours : ℕ
  pub votes : ℕ
  pub raw_overlap : ℕ
  pub weighted : fl.F

-- What one neighbour adds.
pub record Contribution : Type 0 where
  pub size : ℕ
  pub votes : ℕ
  pub overlap : ℕ

pub record ReportRow (fl : Floats) : Type 0 where
  pub bucket : Text
  pub neighbours : ℕ
  pub neighbour_share : fl.F
  pub votes : ℕ
  pub vote_share : fl.F
  pub raw_overlap : ℕ
  pub weighted_share : fl.F

unfoldable pub or_one : ℕ → ℕ
or_one n = if n == 0 then 1 else n

module _ (fl : Floats) where
  open fl use {add, of_int}

  unfoldable pub added : Contribution → Bucket fl → Bucket fl
  unfolding damped_overlap_weight
  added n r = record r {
    neighbours = suc r.neighbours;
    votes = r.votes + n.votes;
    raw_overlap = r.raw_overlap + n.overlap;
    weighted = add r.weighted (damped_overlap_weight fl n.overlap);
  }

  -- `agg.setdefault(label, …)` and the four additions.
  unfoldable pub add_to_bucket : Text → Contribution → List (Bucket fl) → List (Bucket fl)
  unfolding added same_text
  add_to_bucket l n [] =
      added n
        (record { bucket = l; neighbours = 0; votes = 0; raw_overlap = 0; weighted = of_int 0 })
      ∷ []
  add_to_bucket l n (r ∷ agg) =
      let rest = add_to_bucket l n agg in if same_text r.bucket l then added n r ∷ agg else r ∷ rest

  -- The loop over the neighbours; `none` where there is no label.
  unfoldable pub aggregate :
      List ℕ → (ℕ → Contribution) → List ℕ → List (Bucket fl) → Option (List (Bucket fl))
  unfolding add_to_bucket size_bucket_label
  aggregate bounds of_fan [] agg = some agg
  aggregate bounds of_fan (f ∷ fans) agg = elim (size_bucket_label (of_fan f).size bounds) [
    | none ↦ none
    | some l ↦ aggregate bounds of_fan fans (add_to_bucket l (of_fan f) agg)
  ]

  unfoldable pub total_weighted : fl.F → List (Bucket fl) → fl.F
  total_weighted acc [] = acc
  total_weighted acc (r ∷ agg) = total_weighted (add acc r.weighted) agg

  unfoldable pub total_votes : List (Bucket fl) → ℕ
  total_votes [] = 0
  total_votes (r ∷ agg) = r.votes + total_votes agg

  unfoldable pub report_row : Shares fl → ℕ → ℕ → fl.F → Bucket fl → ReportRow fl
  report_row s neighbours votes weighted r = record {
    bucket = r.bucket;
    neighbours = r.neighbours;
    neighbour_share = s.ratio r.neighbours neighbours;
    votes = r.votes;
    vote_share = s.ratio r.votes votes;
    raw_overlap = r.raw_overlap;
    weighted_share = s.divide r.weighted weighted;
  }

  -- The loop over the labels: a label without a row is passed over.
  unfoldable pub report_rows :
      (Bucket fl → ReportRow fl) → List Text → List (Bucket fl) → List (ReportRow fl)
  unfolding same_text
  report_rows row [] agg = []
  report_rows row (l ∷ labels) agg =
      let rest = report_rows row labels agg in
      elim (find (λ (r : Bucket fl). same_text r.bucket l) agg) [
        | none ↦ rest
        | some r ↦ row r ∷ rest
      ]

  -- The report of the rows of `agg`.
  unfoldable pub report_of :
      Shares fl → List ℕ → ℕ → List (Bucket fl) → Option (List (ReportRow fl))
  unfolding report_row report_rows total_votes total_weighted or_one size_bucket_order
  report_of s bounds neighbours agg =
      let weighted = total_weighted (of_int 0) agg in
      let whole = if s.is_zero weighted then of_int 1 else weighted in
      elim (size_bucket_order bounds) [
        | none ↦ none
        | some labels ↦
            some (report_rows (report_row s neighbours (or_one (total_votes agg)) whole) labels agg)
      ]

  -- What a fan contributes to the report for the fan `me`.
  unfoldable pub contribution : ℕ → ℕ → ℕ → List ℕ → Library → ℕ → Contribution
  unfolding collection_size candidate_votes build_exclusions my_owned_ids neighbour_overlap
  contribution now me user neighbours lib fan =
      let (albums, tracks) = my_owned_ids me lib in
      record {
        size = collection_size fan lib;
        votes = candidate_votes neighbours (build_exclusions now me user lib) lib fan;
        overlap = neighbour_overlap neighbours albums tracks lib.fan_items fan;
      }

  -- The neighbours of the scan, each once.
  unfoldable pub neighbours_of : ℕ → Seeds → Library → List ℕ
  unfolding seed_ids scan_neighbours distinct
  neighbours_of me seeds lib =
      let (albums, tracks) = seed_ids seeds me lib in
      distinct (scan_neighbours albums tracks me lib)

  unfoldable pub report_for :
      Shares fl → List ℕ → (ℕ → Contribution) → List ℕ → Option (List (ReportRow fl))
  unfolding aggregate report_of
  report_for s bounds of_fan [] = some []
  report_for s bounds of_fan (f ∷ fans) = elim (aggregate bounds of_fan (f ∷ fans) []) [
    | none ↦ none
    | some agg ↦ report_of s bounds (length (f ∷ fans)) agg
  ]

  -- `none` is the IndexError of a report with no buckets.
  unfoldable pub neighbour_size_report :
      Shares fl → List ℕ → ℕ → ℕ → ℕ → Seeds → Library → Option (List (ReportRow fl))
  unfolding neighbours_of contribution report_for sort_rows
  neighbour_size_report s buckets now me user seeds lib =
      let fans = neighbours_of me seeds lib in
      report_for s (sort_rows ltb buckets) (contribution now me user fans lib) fans
