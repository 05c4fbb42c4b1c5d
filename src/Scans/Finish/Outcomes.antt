-- ===== src/Scans/Finish/Outcomes.antt =====
-- What becomes of the scan when it ends, however it ends.
use bandcamp_curate.Base.{
  incomplete, ◌⊎◌, Text, length, true, false, zero, suc, Bool-cases, inr, inl, Bool, suc,
  Option-cases, raise, ok, Result, arith, ℕ, some, List, ◌≡◌, refl,
}
use bandcamp_curate.Curation.Scoring.{Floats, ScoredItem}
use bandcamp_curate.Scans.Tables.{Scan, error, Store, get_scan, write_scan}
use bandcamp_curate.Crawl.Database.{requests_used_by_scan}
use bandcamp_curate.Curation.Ranking.{Stats}
use bandcamp_curate.Scans.Finish.{
  get_user, marked_done, page_to_complete, record_result, self_crawl_complete, resolve_seeds,
  curate, done, CurateArgs, SliceArgs, close_scan, after_slice, slices, finalize_scan, run_scan,
  guarded, failed, fail_scan,
}
use bandcamp_curate.Scans.Slice.{advance_scan}
use bandcamp_curate.Scans.Tables.Rows.{get_scan-update_scan}

-- How a run ends: the scan is done where it returns, and failed with the exception where it raises.
unfoldable pub Ended : {A : Type 0} {fl : Floats} → ℕ → Result A × Store fl → Type 0
Ended scan_id (ok a, st) = (s : Scan) → get_scan scan_id st.scans ≡ some s → s.status ≡ done
Ended scan_id (raise e, st) =
    (s : Scan) → get_scan scan_id st.scans ≡ some s → (s.status ≡ error) × (s.error_text ≡ some e)

-- The same without the failure: what the `try` is around.
abbrev Closed : {A : Type 0} {fl : Floats} → ℕ → Result A × Store fl → Type 0
Closed scan_id (ok a, st) = (s : Scan) → get_scan scan_id st.scans ≡ some s → s.status ≡ done
Closed scan_id (raise e, st) = Unit {0}

guarded-Ended :
    {A : Type 0} {fl : Floats} (scan_id : ℕ) (r : Result A × Store fl)
    → Closed scan_id r
    → Ended scan_id (guarded scan_id r)
unfolding guarded fail_scan write_scan failed Ended
guarded-Ended scan_id (ok a, st) h = h
guarded-Ended scan_id (raise e, st) h = λ s at. (
  ground (arith, at, get_scan-update_scan scan_id (failed e) st.scans (λ s. refl)),
  ground (arith, at, get_scan-update_scan scan_id (failed e) st.scans (λ s. refl)),
)

module _ {fl : Floats} where
  record_result-Closed :
      (now scan_id : ℕ) (r : Result (List (ScoredItem fl) × Stats) × Store fl)
      → Closed scan_id (record_result now scan_id r)
  unfolding record_result write_scan marked_done
  record_result-Closed now scan_id (raise e, st) = tt
  record_result-Closed now scan_id (ok (scored, stats), st) = λ s at. ground (
    arith,
    at,
    get_scan-update_scan scan_id
        (marked_done now (length scored) (requests_used_by_scan scan_id st.usage) (some stats))
        st.scans (λ s. refl),
  )

  close_scan-Closed :
      (args : CurateArgs) (scan_id : ℕ) (st : Store fl)
      → Closed scan_id (close_scan args scan_id st)
  unfolding close_scan
  close_scan-Closed args scan_id st =
      record_result-Closed args.now scan_id (curate args scan_id (resolve_seeds scan_id st))

  finalize_scan-Closed :
      (args : CurateArgs) (scan_id : ℕ) (st : Store fl)
      → Closed scan_id (finalize_scan args scan_id st)
  unfolding finalize_scan
  finalize_scan-Closed args scan_id st = elim (Option-cases (get_scan scan_id st.scans)) [
    | inl gone ↦ rw (gone, finalize_scan, Closed) tt
    | inr (s, at) ↦
        elim (Bool-cases (
          self_crawl_complete (page_to_complete s.kind (get_user s.user_id st.users)) scan_id
            st.frontier.rows)) [
              | inl complete ↦
                  rw (at, finalize_scan, Closed) (rw complete (close_scan-Closed args scan_id st))
              | inr partial ↦ rw (at, finalize_scan, Closed) (rw partial tt)
            ]
  ]

  after_slice-Closed :
      (args : CurateArgs) (scan_id : ℕ) (r : Result Bool) (st : Store fl)
      (next : Store fl → Result ℕ × Store fl)
      → ((st' : Store fl) → Closed scan_id (next st'))
      → Closed scan_id (after_slice args scan_id r st next)
  unfolding after_slice
  after_slice-Closed args scan_id (raise e) st next h = tt
  after_slice-Closed args scan_id (ok true) st next h = h st
  after_slice-Closed args scan_id (ok false) st next h = finalize_scan-Closed args scan_id st

  slices-Closed :
      (args : ℕ → SliceArgs fl) (curation : CurateArgs) (scan_id left : ℕ) (st : Store fl)
      → Closed scan_id (slices args curation scan_id left st)
  unfolding slices
  slices-Closed args curation scan_id zero st = tt
  slices-Closed args curation scan_id (suc left) st =
      after_slice-Closed curation scan_id (advance_scan (args left) scan_id st).0
        (advance_scan (args left) scan_id st).1 (slices args curation scan_id left)
        (slices-Closed args curation scan_id left)

  -- Whatever the slices crawl, and however many are allowed: if the scan is in the table when the
  -- blocking run is over, its status is done where the run returned, and error, with the exception
  -- on it, where it raised.
  pub run_scan-Ended :
      (args : ℕ → SliceArgs fl) (curation : CurateArgs) (max_slices scan_id : ℕ) (st : Store fl)
      → Ended scan_id (run_scan args curation max_slices scan_id st)
  unfolding run_scan
  run_scan-Ended args curation max_slices scan_id st =
      guarded-Ended scan_id _ (slices-Closed args curation scan_id max_slices st)

-- Where the owner has a fan page and the scan is the collection scan, the scan is closed only if
-- its own entry of that page is done; otherwise the run raises and changes nothing.
pub finalize_scan-guarded :
    {fl : Floats} (args : CurateArgs) (scan_id : ℕ) (st : Store fl) (s : Scan)
    → get_scan scan_id st.scans ≡ some s
    → (page : Text) → page_to_complete s.kind (get_user s.user_id st.users) ≡ some page
    → ((self_crawl_complete (some page) scan_id st.frontier.rows ≡ true)
        × (finalize_scan args scan_id st ≡ close_scan args scan_id st))
      ⊎ ((self_crawl_complete (some page) scan_id st.frontier.rows ≡ false)
          × (finalize_scan args scan_id st ≡ (raise incomplete, st)))
unfolding finalize_scan
finalize_scan-guarded args scan_id st s at page own =
    elim (Bool-cases (self_crawl_complete (some page) scan_id st.frontier.rows)) [
      | inl complete ↦ inl (complete, rw (at, finalize_scan) (rw (own, complete) refl))
      | inr partial ↦ inr (partial, rw (at, finalize_scan) (rw (own, partial) refl))
    ]
