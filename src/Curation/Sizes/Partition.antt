-- ===== src/Curation/Sizes/Partition.antt =====
-- The rows of the size report and its neighbours (backend/app/curation/engine.py).
use bandcamp_curate.Base.{
  ℕ, true, some, List, [], ◌∷◌, ◌≡◌, refl, ◌∙◌, ltb, if◌then◌else◌, Text, length, arith, sort_rows,
}
use bandcamp_curate.Curation.Tables.{Library}
use bandcamp_curate.Curation.Neighbours.{Seeds}
use bandcamp_curate.Curation.Scoring.{Floats}
use bandcamp_curate.Curation.Sizes.{
  total_votes, or_one, total_weighted, size_bucket_order, Shares, Contribution, ReportRow, added,
  report_row, report_rows, report_of, contribution, neighbours_of, report_for,
  neighbour_size_report,
}
use bandcamp_curate.Curation.Sizes.Labels.{ascending, size_bucket_order_distinct}
use bandcamp_curate.Curation.Sizes.Columns.{no_repeats, sum_of, aggregate_total, IsColumn, reported}

module _ (fl : Floats) where
  members-IsColumn : IsColumn fl (λ r. r.neighbours) (λ n. 1)
  unfolding added
  members-IsColumn = record { from_0 = λ l. refl; adds = λ n r. omega arith }

  votes-IsColumn : IsColumn fl (λ r. r.votes) (λ n. n.votes)
  unfolding added
  votes-IsColumn = record { from_0 = λ l. refl; adds = λ n r. refl }

  overlap-IsColumn : IsColumn fl (λ r. r.raw_overlap) (λ n. n.overlap)
  unfolding added
  overlap-IsColumn = record { from_0 = λ l. refl; adds = λ n r. refl }

  -- The rows of a report account for all fans.
  pub record IsPartition (of_fan : ℕ → Contribution) (fans : List ℕ) (rows : List (ReportRow fl))
      : Type 0 where
    pub members : sum_of (λ (r : ReportRow fl). r.neighbours) rows ≡ length fans
    pub votes : sum_of (λ (r : ReportRow fl). r.votes) rows ≡ sum_of (λ f. (of_fan f).votes) fans
    pub overlap :
        sum_of (λ (r : ReportRow fl). r.raw_overlap) rows ≡ sum_of (λ f. (of_fan f).overlap) fans

  nothing_reported : (of_fan : ℕ → Contribution) → IsPartition of_fan [] []
  unfolding sum_of
  nothing_reported of_fan = record { members = refl; votes = refl; overlap = refl }

  sum_of_ones : (fans : List ℕ) → sum_of (λ f. 1) fans ≡ length fans
  unfolding sum_of
  sum_of_ones [] = refl
  sum_of_ones (f ∷ fans) = omega (arith, sum_of_ones fans)

  report_for-IsPartition :
      (s : Shares fl) (bounds : List ℕ) (labels : List Text) (of_fan : ℕ → Contribution)
      (fans : List ℕ)
      → size_bucket_order bounds ≡ some labels
      → no_repeats labels ≡ true
      → (rows : List (ReportRow fl)) × (report_for fl s bounds of_fan fans ≡ some rows)
        × IsPartition of_fan fans rows
  unfolding report_for report_of report_row
  report_for-IsPartition s bounds labels of_fan [] order distinct =
      ([], refl, nothing_reported of_fan)
  report_for-IsPartition s bounds labels of_fan (f ∷ fans) order distinct =
      let (agg, at) = aggregate_total fl bounds {labels = labels} of_fan (f ∷ fans) [] order in
      let weighted = total_weighted fl (fl.of_int 0) agg in
      let whole = if s.is_zero weighted then fl.of_int 1 else weighted in
      let row = report_row fl s (length (f ∷ fans)) (or_one (total_votes fl agg)) whole in
      (
        report_rows fl row labels agg,
        ground (arith, at, order),
        record {
          members =
              reported fl (λ r. r.neighbours) (λ n. 1) members-IsColumn bounds of_fan (f ∷ fans) row
                (λ r. r.neighbours) order distinct at (λ r. refl)
              ∙ sum_of_ones (f ∷ fans);
          votes =
              reported fl (λ r. r.votes) (λ n. n.votes) votes-IsColumn bounds of_fan (f ∷ fans) row
                (λ r. r.votes) order distinct at (λ r. refl);
          overlap =
              reported fl (λ r. r.raw_overlap) (λ n. n.overlap) overlap-IsColumn bounds of_fan
                (f ∷ fans) row (λ r. r.raw_overlap) order distinct at (λ r. refl);
        },
      )

  -- Where the bounds of the buckets ascend once they are sorted, that is, where there is one and none
  -- is given twice: the size report is made, and its rows are a partition of the neighbours of the
  -- scan. No neighbour, no vote and no overlap is lost between the labels by which the neighbours
  -- are grouped and those by which the rows are read, and none is counted twice.
  pub neighbour_size_report-IsPartition :
      (s : Shares fl) (buckets : List ℕ) (b : ℕ) (bounds : List ℕ) (now me user : ℕ) (seeds : Seeds)
      (lib : Library)
      → sort_rows ltb buckets ≡ b ∷ bounds
      → ascending (b ∷ bounds) ≡ true
      → (rows : List (ReportRow fl)) × (neighbour_size_report fl s buckets now me user seeds lib
          ≡ some rows)
        × IsPartition
            (contribution fl now me user (neighbours_of fl me seeds lib) lib)
            (neighbours_of fl me seeds lib)
            rows
  unfolding neighbour_size_report
  neighbour_size_report-IsPartition s buckets b bounds now me user seeds lib sorted up =
      let (labels, order, distinct) = size_bucket_order_distinct b bounds up in
      rw sorted (
        report_for-IsPartition s (b ∷ bounds) labels
          (contribution fl now me user (neighbours_of fl me seeds lib) lib)
          (neighbours_of fl me seeds lib) order distinct)
