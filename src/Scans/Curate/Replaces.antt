-- ===== src/Scans/Curate/Replaces.antt =====
-- What `curate` of backend/app/curation/engine.py does to the stored recommendations.
use bandcamp_curate.Base.{
  ℕ, false, not, List, [], ◌∷◌, ◌++◌, map, ◌==◌, ==_iff, ◌≡◌, refl, where_rows, arith, Result, ok,
  raise, if◌then◌else◌, Option-cases, inl, inr,
}
use bandcamp_curate.Curation.Scoring.{Floats, ScoredItem}
use bandcamp_curate.Curation.Ranking.{compute_recommendations, Stats, compute_recommendations}
use bandcamp_curate.Scans.Tables.{Recommendation, Store, Scan, get_scan, get_user, write_scan}
use bandcamp_curate.Scans.Curate.{
  CurateArgs, curate_as, request_of, get_me, get_me, request_of, store_recommendations, curate,
}

module _ {fl : Floats} where
  -- The stored items of a scan, in order.
  unfoldable pub items_of : ℕ → List (Recommendation fl) → List (ScoredItem fl)
  items_of scan_id [] = []
  items_of scan_id (r ∷ recs) =
      let rest = items_of scan_id recs in if r.scan_id == scan_id then r.item ∷ rest else rest

  abbrev others_of : ℕ → List (Recommendation fl) → List (Recommendation fl)
  others_of scan_id recs = where_rows (λ (r : Recommendation fl). not (r.scan_id == scan_id)) recs

  abbrev tagged : ℕ → List (ScoredItem fl) → List (Recommendation fl)
  tagged scan_id scored = map (λ i. record { scan_id = scan_id; item = i }) scored

  items_of-tagged :
      (scan_id : ℕ) (scored : List (ScoredItem fl))
      → items_of scan_id (tagged scan_id scored) ≡ scored
  unfolding items_of
  items_of-tagged scan_id [] = refl
  items_of-tagged scan_id (s ∷ scored) =
      ground (arith, items_of-tagged scan_id scored, ==_iff scan_id scan_id)

  items_of-replaced :
      (scan_id : ℕ) (recs : List (Recommendation fl)) (scored : List (ScoredItem fl))
      → items_of scan_id (others_of scan_id recs ++ tagged scan_id scored) ≡ scored
  unfolding items_of
  items_of-replaced scan_id [] scored = items_of-tagged scan_id scored
  items_of-replaced scan_id (r ∷ recs) scored =
      ground (arith, items_of-replaced scan_id recs scored)

  items_of-foreign :
      (scan_id other : ℕ) (scored : List (ScoredItem fl))
      → (scan_id == other) ≡ false
      → items_of other (tagged scan_id scored) ≡ []
  unfolding items_of
  items_of-foreign scan_id other [] ne = refl
  items_of-foreign scan_id other (s ∷ scored) ne =
      ground (arith, items_of-foreign scan_id other scored ne, ne)

  items_of-kept :
      (scan_id other : ℕ) (recs : List (Recommendation fl)) (scored : List (ScoredItem fl))
      → (scan_id == other) ≡ false
      → items_of other (others_of scan_id recs ++ tagged scan_id scored) ≡ items_of other recs
  unfolding items_of
  items_of-kept scan_id other [] scored ne = items_of-foreign scan_id other scored ne
  items_of-kept scan_id other (r ∷ recs) scored ne = ground (
    arith,
    items_of-kept scan_id other recs scored ne,
    ne,
    ==_iff r.scan_id scan_id,
    ==_iff r.scan_id other,
    ==_iff scan_id other,
  )

  -- What storing leaves: the new items of the scan, and the old ones of the others.
  abbrev Replaced : ℕ → List (ScoredItem fl) → Store fl → Store fl → Type 0
  Replaced scan_id scored st st' =
      (items_of scan_id st'.recommendations ≡ scored)
      × ((other : ℕ)
          → (scan_id == other) ≡ false
          → items_of other st'.recommendations ≡ items_of other st.recommendations)

  pub store_recommendations-Replaced :
      (scored : List (ScoredItem fl)) (scan_id : ℕ) (st : Store fl)
      → Replaced scan_id scored st (store_recommendations scored scan_id st).1
  unfolding store_recommendations write_scan
  store_recommendations-Replaced scored scan_id st = (
    items_of-replaced scan_id st.recommendations scored,
    λ other ne. items_of-kept scan_id other st.recommendations scored ne,
  )

  -- What `curate` leaves: the store that it was given where it raises.
  unfoldable pub Curated : ℕ → Store fl → Result (List (ScoredItem fl) × Stats) × Store fl → Type 0
  Curated scan_id st (raise e, st') = st' ≡ st
  Curated scan_id st (ok (scored, stats), st') = Replaced scan_id scored st st'

  curate_as-Curated :
      (args : CurateArgs) (scan_id : ℕ) (scan : Scan) (st : Store fl) (me : Result ℕ)
      → Curated scan_id st (curate_as args scan_id scan st me)
  unfolding curate_as Curated
  curate_as-Curated args scan_id scan st (raise e) = refl
  curate_as-Curated args scan_id scan st (ok me) =
      store_recommendations-Replaced
        (compute_recommendations fl (request_of args me scan st.seeds) st.library).0 scan_id st

  -- Curating a scan replaces its stored recommendations by the ranking that it returns and keeps
  -- those of every other scan; where it raises, it changes nothing.
  pub curate-Curated :
      (args : CurateArgs) (scan_id : ℕ) (st : Store fl)
      → Curated scan_id st (curate args scan_id st)
  unfolding curate Curated
  curate-Curated args scan_id st = elim (Option-cases (get_scan scan_id st.scans)) [
    | inl gone ↦ rw (gone, curate, Curated) refl
    | inr (scan, at) ↦ elim (Option-cases (get_user scan.user_id st.users)) [
      | inl gone ↦ rw (at, curate, Curated) (rw (gone, curate, Curated) refl)
      | inr (user, found) ↦
          rw (at, curate, Curated)
            (rw (found, curate, Curated)
              (curate_as-Curated args scan_id scan st (get_me user st.fans)))
    ]
  ]
