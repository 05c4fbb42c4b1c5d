-- ===== src/Api/Feed/Curated.antt =====
-- The feed of a scan (backend/app/api/feed.py) after `curate` (backend/app/curation/engine.py).
use bandcamp_curate.Base.{
  ℕ, none, some, List, [], ◌∷◌, ◌≡◌, refl, ◌∙◌, ap, subst, map, where_rows, Result, ok, raise,
  arith, Option-cases, inl, inr,
}
use bandcamp_curate.Curation.Tables.{Library}
use bandcamp_curate.Curation.Scoring.{Floats, ScoredItem}
use bandcamp_curate.Curation.Ranking.{Stats}
use bandcamp_curate.Curation.Ranking.Descending.{
  IsOrder, Descends, compute_recommendations-Descends,
}
use bandcamp_curate.Scans.Tables.{Recommendation, Store, Scan, get_scan, get_user}
use bandcamp_curate.Scans.Curate.{CurateArgs, curate_as, request_of, get_me, curate}
use bandcamp_curate.Scans.Curate.Replaces.{items_of, Curated, curate-Curated}
use bandcamp_curate.Api.Feed.{
  Filters, Sort, selected, of_feed, apply_rec_filters, place_row, order_rows,
}
use bandcamp_curate.Api.Feed.Pages.{feed_rows}

-- No query parameter filters.
abbrev pub unfiltered : Filters
unfiltered = record {
  item_type = none;
  tag = [];
  exclude_tag = [];
  tag_contains = [];
  exclude_tag_contains = [];
  label_id = [];
  exclude_label_id = [];
}

module _ (fl : Floats) where
  items_of-selected :
      (fold : ℕ → ℕ) (scan_id : ℕ) (lib : Library) (recs : List (Recommendation fl))
      → map
          (λ (r : Recommendation fl). r.item)
          (where_rows (selected fold unfiltered (some scan_id) lib) recs)
        ≡ items_of scan_id recs
  unfolding items_of selected of_feed apply_rec_filters
  items_of-selected fold scan_id lib [] = refl
  items_of-selected fold scan_id lib (r ∷ recs) =
      ground (arith, items_of-selected fold scan_id lib recs)

  -- Rows whose scores descend stay in the order of their ids.
  order_rows-Descends :
      (rows : List (Recommendation fl))
      → Descends fl (map (λ (r : Recommendation fl). r.item) rows)
      → order_rows Sort.score rows ≡ rows
  unfolding order_rows place_row Descends
  order_rows-Descends [] h = refl
  order_rows-Descends (r ∷ []) h = refl
  order_rows-Descends (r ∷ s ∷ rows) h =
      rw (order_rows-Descends (s ∷ rows) h.1) (ground (arith, h.0.0))

  -- Where `curate` returns, the scores of its ranking descend.
  unfoldable Ranks : Result (List (ScoredItem fl) × Stats) → Type 0
  Ranks (raise e) = Unit
  Ranks (ok (scored, stats)) = Descends fl scored

  curate_as-Ranks :
      (o : IsOrder fl) (args : CurateArgs) (scan_id : ℕ) (scan : Scan) (st : Store fl)
      (me : Result ℕ)
      → Ranks (curate_as args scan_id scan st me).0
  unfolding curate_as Ranks
  curate_as-Ranks o args scan_id scan st (raise e) = tt
  curate_as-Ranks o args scan_id scan st (ok me) =
      compute_recommendations-Descends fl o (request_of args me scan st.seeds) st.library

  curate-Ranks :
      (o : IsOrder fl) (args : CurateArgs) (scan_id : ℕ) (st : Store fl)
      → Ranks (curate args scan_id st).0
  unfolding curate Ranks
  curate-Ranks o args scan_id st = elim (Option-cases (get_scan scan_id st.scans)) [
    | inl gone ↦ rw (gone, curate, Ranks) tt
    | inr (scan, at) ↦ elim (Option-cases (get_user scan.user_id st.users)) [
      | inl gone ↦ rw (at, curate, Ranks) (rw (gone, curate, Ranks) tt)
      | inr (user, found) ↦
          rw (at, curate, Ranks)
            (rw (found, curate, Ranks)
              (curate_as-Ranks o args scan_id scan st (get_me user st.fans)))
    ]
  ]

  stored :
      (scan_id : ℕ) (st : Store fl) (scored : List (ScoredItem fl)) (stats : Stats)
      (out : Result (List (ScoredItem fl) × Stats) × Store fl)
      → Curated scan_id st out
      → out.0 ≡ ok (scored, stats)
      → items_of scan_id out.1.recommendations ≡ scored
  unfolding Curated
  stored scan_id st scored stats (raise e, st') c h = ground (arith, h)
  stored scan_id st scored stats (ok (found, counts), st') c h = ground (arith, h, c.0)

  -- With floats that are no NaN: when `curate` has returned a ranking for a scan, the feed of that
  -- scan by score and without filters, read from the tables that it leaves, has the items of the
  -- ranking and no others, in the order of the ranking, also where scores tie; what was stored for
  -- the scan before is gone.
  pub feed_rows-curate :
      (o : IsOrder fl) (fold : ℕ → ℕ) (round_2 : fl.F → fl.F) (args : CurateArgs) (scan_id : ℕ)
      (st : Store fl) (scored : List (ScoredItem fl)) (stats : Stats)
      → (curate args scan_id st).0 ≡ ok (scored, stats)
      → map
          (λ (r : Recommendation fl). r.item)
          (feed_rows fl fold round_2 unfiltered Sort.score
            (some scan_id)
            (curate args scan_id st).1)
        ≡ scored
  unfolding feed_rows
  feed_rows-curate o fold round_2 args scan_id st scored stats h =
      let st' = (curate args scan_id st).1 in
      let rows =
        where_rows (selected fold unfiltered (some scan_id) st'.library) st'.recommendations in
      let down : Descends fl scored =
        unfold Ranks in subst Ranks h (curate-Ranks o args scan_id st) in
      let same : map (λ (r : Recommendation fl). r.item) rows ≡ scored =
        items_of-selected fold scan_id st'.library st'.recommendations
        ∙ stored scan_id st scored stats (curate args scan_id st) (curate-Curated args scan_id st)
            h in
      ap (λ (rs : List (Recommendation fl)). map (λ (r : Recommendation fl). r.item) rs)
        (order_rows-Descends rows (rw same down))
      ∙ same
