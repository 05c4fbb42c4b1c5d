-- ===== src/Api/Ownership/Pruning.antt =====
-- What the end of a handler of backend/app/api/likes.py or backend/app/api/blacklist.py leaves of the
-- recommendations and the scans, scan by scan.
use bandcamp_curate.Base.{
  ℕ, ◌+◌, Bool, not, List, [], ◌∷◌, ◌≡◌, refl, ==_iff, if◌then◌else◌, contains, where_rows, arith,
}
use bandcamp_curate.Curation.Scoring.{Floats, ScoredItem}
use bandcamp_curate.Scans.Tables.{Scan, Recommendation, Store, get_scan}
use bandcamp_curate.Scans.Tables.Rows.{map_scan}
use bandcamp_curate.Scans.Curate.Replaces.{items_of}
use bandcamp_curate.Api.Ownership.{user_scan_ids, bump_generations, prune, pruned}

abbrev pub next_generation : Bool → Scan → Scan
next_generation own s =
    if own then record s { recompute_generation = s.recompute_generation + 1 } else s

-- The scan with an id is given a new generation just if the id is among the ids.
get_scan-bump_generations :
    (ids : List ℕ) (i : ℕ) (scans : List Scan)
    → get_scan i (bump_generations ids scans)
      ≡ map_scan (next_generation (contains i ids)) (get_scan i scans)
unfolding get_scan bump_generations
get_scan-bump_generations ids i [] = refl
get_scan-bump_generations ids i (s ∷ scans) =
    ground (arith, get_scan-bump_generations ids i scans, ==_iff s.id i)

module _ {fl : Floats} where
  -- What a pruned scan shows.
  abbrev pub left_of : Bool → (ScoredItem fl → Bool) → List (ScoredItem fl) → List (ScoredItem fl)
  left_of own test items = if own then where_rows (λ i. not (test i)) items else items

  items_of-prune :
      (ids : List ℕ) (test : ScoredItem fl → Bool) (i : ℕ) (recs : List (Recommendation fl))
      → items_of i (prune ids test recs) ≡ left_of (contains i ids) test (items_of i recs)
  unfolding items_of prune
  items_of-prune ids test i [] = ground arith
  items_of-prune ids test i (r ∷ recs) =
      ground (arith, items_of-prune ids test i recs, ==_iff r.scan_id i)

  -- From one state of the tables to another, the scan with the id loses the items that pass the
  -- test, and has a new generation, if it is the user's; else it is as it was.
  unfoldable pub Pruned : ℕ → (ScoredItem fl → Bool) → ℕ → Store fl → Store fl → Type 0
  Pruned user test i st st' =
      (items_of i st'.recommendations
        ≡ left_of (contains i (user_scan_ids user st.scans)) test (items_of i st.recommendations))
      × (get_scan i st'.scans
          ≡ map_scan (next_generation (contains i (user_scan_ids user st.scans)))
              (get_scan i st.scans))

  pub pruned-Pruned :
      (user : ℕ) (test : ScoredItem fl → Bool) (i : ℕ) (st : Store fl)
      → Pruned user test i st (pruned user test st)
  unfolding Pruned pruned
  pruned-Pruned user test i st = (
    items_of-prune (user_scan_ids user st.scans) test i st.recommendations,
    get_scan-bump_generations (user_scan_ids user st.scans) i st.scans,
  )
