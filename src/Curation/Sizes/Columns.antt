-- ===== src/Curation/Sizes/Columns.antt =====
-- The columns of the size report, added up (backend/app/curation/engine.py).
use bandcamp_curate.Base.{
  ℕ, ◌+◌, Bool, true, false, ◌&&◌, not, none, some, List, [], ◌∷◌, ◌++◌, ◌≡◌, refl, ap, ltb,
  if◌then◌else◌, Text, same_text, same_text_iff, same_text_refl, any, any-append_left, any_last,
  find, arith, Bool-cases, Option-cases, inl, inr,
}
use bandcamp_curate.Curation.Scoring.{Floats}
use bandcamp_curate.Curation.Sizes.{
  range_label, top_label, label_from, size_bucket_label, labels_from, size_bucket_order, Bucket,
  Contribution, ReportRow, added, add_to_bucket, aggregate, report_rows,
}

-- No label twice.
unfoldable pub no_repeats : List Text → Bool
no_repeats [] = true
no_repeats (l ∷ labels) = not (any (same_text l) labels) && no_repeats labels

unfoldable pub sum_of : {A : Type 0} → (A → ℕ) → List A → ℕ
sum_of f [] = 0
sum_of f (x ∷ xs) = f x + sum_of f xs

label_from-any :
    (lo size : ℕ) (bounds : List ℕ) {l : Text}
    → label_from lo size bounds ≡ some l
    → any (same_text l) (labels_from lo bounds) ≡ true
unfolding label_from labels_from
label_from-any lo size [] h = ground (arith, h)
label_from-any lo size (b ∷ bounds) {l} h = elim (Bool-cases (ltb size b)) [
  | inl e ↦ ground (arith, h, e, same_text_iff l (range_label lo b))
  | inr e ↦
      let later : label_from b size bounds ≡ some l = ground (arith, h, e) in
      ground (arith, label_from-any b size bounds later)
]

-- Every size has a label, and it is one of the order.
size_bucket_label-any :
    (size : ℕ) (bounds : List ℕ) {labels : List Text}
    → size_bucket_order bounds ≡ some labels
    → (l : Text) × (size_bucket_label size bounds ≡ some l) × (any (same_text l) labels ≡ true)
unfolding size_bucket_order size_bucket_label
size_bucket_label-any size bounds {labels} h = elim (Option-cases (top_label bounds)) [
  | inl e ↦ ground (arith, h, e)
  | inr (top, e) ↦
      let all : labels_from 0 bounds ++ top ∷ [] ≡ labels = ground (arith, h, e) in
      elim (Option-cases (label_from 0 size bounds)) [
        | inl f ↦
            let last = any_last (same_text top) (labels_from 0 bounds) top (same_text_refl top) in
            (top, ground (arith, e, f), rw all at last)
        | inr (l, f) ↦
            let within =
              any-append_left (same_text l) (labels_from 0 bounds) (top ∷ [])
                (label_from-any 0 size bounds f) in
            (l, ground (arith, f), rw all at within)
      ]
]

module _ (fl : Floats) where
  abbrev pub fresh : Text → Bucket fl
  fresh l = record {
    bucket = l;
    neighbours = 0;
    votes = 0;
    raw_overlap = 0;
    weighted = fl.of_int 0;
  }

  abbrev labelled : Text → Bucket fl → Bool
  labelled l r = same_text r.bucket l

  pub aggregate_total :
      (bounds : List ℕ) {labels : List Text} (of_fan : ℕ → Contribution) (fans : List ℕ)
      (agg : List (Bucket fl))
      → size_bucket_order bounds ≡ some labels
      → (out : List (Bucket fl)) × (aggregate fl bounds of_fan fans agg ≡ some out)
  unfolding aggregate
  aggregate_total bounds of_fan [] agg order = (agg, refl)
  aggregate_total bounds {labels = labels} of_fan (f ∷ fans) agg order =
      let (l, at, inside) = size_bucket_label-any (of_fan f).size bounds order in
      rw (at, aggregate)
        (aggregate_total bounds {labels = labels} of_fan fans (add_to_bucket fl l (of_fan f) agg)
          order)

  -- A column of the rows of `agg` that adds up what the neighbours contribute.
  pub record IsColumn (m : Bucket fl → ℕ) (part : Contribution → ℕ) : Type 0 where
    pub from_0 : (l : Text) → m (fresh l) ≡ 0
    pub adds : (n : Contribution) (r : Bucket fl) → m (added fl n r) ≡ m r + part n

  -- The column at a label.
  value_at : (Bucket fl → ℕ) → Text → List (Bucket fl) → ℕ
  value_at m l agg = elim (find (labelled l) agg) [ none ↦ 0 | some r ↦ m r ]

  module _ (m : Bucket fl → ℕ) (part : Contribution → ℕ) (col : IsColumn m part) where
    value_at-add_to_bucket :
        (l k : Text) (n : Contribution) (agg : List (Bucket fl))
        → value_at m k (add_to_bucket fl l n agg)
          ≡ (if same_text l k then value_at m k agg + part n else value_at m k agg)
    unfolding value_at add_to_bucket added
    value_at-add_to_bucket l k n [] = ground (arith, col.from_0 l, col.adds n (fresh l))
    value_at-add_to_bucket l k n (r ∷ agg) = elim (Bool-cases (same_text r.bucket l)) [
      | inl e ↦ rw e (
          ground (
            arith,
            col.adds n r,
            ap (λ (t : Text). same_text t k) ((same_text_iff r.bucket l).0 e),
          ))
      | inr e ↦ rw e (
          ground (
            arith,
            value_at-add_to_bucket l k n agg,
            same_text_iff r.bucket k,
            same_text_iff l k,
            same_text_iff r.bucket l,
            e,
          ))
    ]

    -- The column over the labels of the order.
    shown : List Text → List (Bucket fl) → ℕ
    shown labels agg = sum_of (λ l. value_at m l agg) labels

    shown-add_elsewhere :
        (l : Text) (n : Contribution) (labels : List Text) (agg : List (Bucket fl))
        → any (same_text l) labels ≡ false
        → shown labels (add_to_bucket fl l n agg) ≡ shown labels agg
    unfolding shown sum_of
    shown-add_elsewhere l n [] agg h = refl
    shown-add_elsewhere l n (k ∷ labels) agg h =
        ground (arith, value_at-add_to_bucket l k n agg, shown-add_elsewhere l n labels agg, h)

    shown-add_to_bucket :
        (l : Text) (n : Contribution) (labels : List Text) (agg : List (Bucket fl))
        → no_repeats labels ≡ true
        → any (same_text l) labels ≡ true
        → shown labels (add_to_bucket fl l n agg) ≡ shown labels agg + part n
    unfolding shown sum_of no_repeats
    shown-add_to_bucket l n [] agg distinct h = ground (arith, h)
    shown-add_to_bucket l n (k ∷ labels) agg distinct h = elim (Bool-cases (same_text l k)) [
      | inl e ↦
          let once : any (same_text l) labels ≡ false =
            rw ((same_text_iff l k).0 e) (ground (arith, distinct)) in
          ground
            (arith, e, value_at-add_to_bucket l k n agg, shown-add_elsewhere l n labels agg once)
      | inr e ↦ ground (
        arith,
        e,
        h,
        distinct,
        value_at-add_to_bucket l k n agg,
        shown-add_to_bucket l n labels agg,
      )
    ]

    -- Aggregating adds what the fans contribute to the column over the labels.
    shown-aggregate :
        (bounds : List ℕ) {labels : List Text} (of_fan : ℕ → Contribution) (fans : List ℕ)
        (agg : List (Bucket fl)) {out : List (Bucket fl)}
        → size_bucket_order bounds ≡ some labels
        → no_repeats labels ≡ true
        → aggregate fl bounds of_fan fans agg ≡ some out
        → shown labels out ≡ shown labels agg + sum_of (λ f. part (of_fan f)) fans
    unfolding aggregate sum_of
    shown-aggregate bounds {labels = labels} of_fan [] agg order distinct h = ground (arith, h)
    shown-aggregate bounds {labels = labels} of_fan (f ∷ fans) agg {out = out} order distinct h =
        let (l, at, inside) = size_bucket_label-any (of_fan f).size bounds order in
        let rest : aggregate fl bounds of_fan fans (add_to_bucket fl l (of_fan f) agg) ≡ some out =
          ground (arith, h, at) in
        omega (
          arith,
          shown-aggregate bounds {labels = labels} of_fan fans (add_to_bucket fl l (of_fan f) agg)
              {out = out} order distinct rest,
          shown-add_to_bucket l (of_fan f) labels agg distinct inside,
        )

    shown_nil : (labels : List Text) → shown labels [] ≡ 0
    unfolding shown sum_of value_at
    shown_nil [] = refl
    shown_nil (l ∷ labels) = omega (arith, shown_nil labels)

    -- The column of the rows that are reported.
    sum_of-report_rows :
        (row : Bucket fl → ReportRow fl) (column : ReportRow fl → ℕ)
        → ((r : Bucket fl) → column (row r) ≡ m r)
        → (labels : List Text) (agg : List (Bucket fl))
        → sum_of column (report_rows fl row labels agg) ≡ shown labels agg
    unfolding report_rows shown sum_of value_at
    sum_of-report_rows row column same [] agg = refl
    sum_of-report_rows row column same (l ∷ labels) agg =
        elim (Option-cases (find (labelled l) agg)) [
          | inl e ↦ ground (arith, e, sum_of-report_rows row column same labels agg)
          | inr (r, e) ↦ ground (arith, e, same r, sum_of-report_rows row column same labels agg)
        ]

    -- A column of the rows that are reported is what all fans contribute.
    pub reported :
        (bounds : List ℕ) {labels : List Text} (of_fan : ℕ → Contribution) (fans : List ℕ)
        {agg : List (Bucket fl)} (row : Bucket fl → ReportRow fl) (column : ReportRow fl → ℕ)
        → size_bucket_order bounds ≡ some labels
        → no_repeats labels ≡ true
        → aggregate fl bounds of_fan fans [] ≡ some agg
        → ((r : Bucket fl) → column (row r) ≡ m r)
        → sum_of column (report_rows fl row labels agg) ≡ sum_of (λ f. part (of_fan f)) fans
    reported bounds {labels = labels} of_fan fans {agg = agg} row column order distinct at same =
        omega (
          arith,
          sum_of-report_rows row column same labels agg,
          shown-aggregate bounds {labels = labels} of_fan fans [] {out = agg} order distinct at,
          shown_nil labels,
        )
