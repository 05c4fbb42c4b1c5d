-- ===== src/Scans/Finish.antt =====
-- How a scan ends: `finalize_scan`, `fail_scan` and `run_scan` of
-- backend/app/crawl/scan_service.py, and the job `run_scan` of backend/app/worker.py.
pub mod Outcomes
use bandcamp_curate.Base.{
  ℕ, zero, suc, Bool, true, false, Option, none, some, List, length, if◌then◌else◌, Text, Error,
  Result, ok, raise, not_found, incomplete, exceeded,
}
use bandcamp_curate.Crawl.Database.{requests_used_by_scan}
use bandcamp_curate.Curation.Scoring.{Floats, ScoredItem}
use bandcamp_curate.Curation.Ranking.{Stats}
use bandcamp_curate.Scans.Tables.{
  ScanKind, collection, custom, done, error, Scan, User, Store, get_scan, get_user, write_scan,
}
use bandcamp_curate.Scans.Curate.{CurateArgs, resolve_seeds, curate}
use bandcamp_curate.Scans.Slice.{SliceArgs, self_crawl_complete, advance_scan}

-- The own page that has to be complete, if any.
unfoldable pub page_to_complete : ScanKind → Option User → Option Text
page_to_complete custom owner = none
page_to_complete collection none = none
page_to_complete collection (some owner) = owner.bandcamp_fan_url

unfoldable pub marked_done : ℕ → ℕ → ℕ → Option Stats → Scan → Scan
marked_done now recommendations credits curation s = record s {
  status = done;
  last_run_at = some now;
  stats = record {
    slices_run = none;
    last_slice_at = none;
    recommendations = some recommendations;
    credits = some credits;
    curation = curation;
  };
}

unfoldable pub failed : Error → Scan → Scan
failed e s = record s { status = error; error_text = some e }

-- What the job returns: another job is queued, or the scan is complete.
pub data JobEnd : Type 0 where
  queued_next complete : JobEnd

module _ {fl : Floats} where
  -- What follows the curation: the scan is closed with its statistics.
  unfoldable pub record_result :
      ℕ → ℕ → Result (List (ScoredItem fl) × Stats) × Store fl → Result ℕ × Store fl
  unfolding write_scan marked_done requests_used_by_scan
  record_result now scan_id (raise e, st) = (raise e, st)
  record_result now scan_id (ok (scored, stats), st) = (
    ok scan_id,
    write_scan scan_id
        (marked_done now (length scored) (requests_used_by_scan scan_id st.usage) (some stats)) st,
  )

  unfoldable pub close_scan : CurateArgs → ℕ → Store fl → Result ℕ × Store fl
  unfolding resolve_seeds curate record_result
  close_scan args scan_id st =
      record_result args.now scan_id (curate args scan_id (resolve_seeds scan_id st))

  unfoldable pub finalize_scan : CurateArgs → ℕ → Store fl → Result ℕ × Store fl
  unfolding get_scan get_user page_to_complete self_crawl_complete close_scan
  finalize_scan args scan_id st = elim (get_scan scan_id st.scans) [
    | none ↦ (raise not_found, st)
    | some s ↦
        if self_crawl_complete (page_to_complete s.kind (get_user s.user_id st.users)) scan_id
          st.frontier.rows
        then close_scan args scan_id st
        else (raise incomplete, st)
  ]

  unfoldable pub fail_scan : ℕ → Error → Store fl → Store fl
  unfolding failed write_scan
  fail_scan scan_id e st = write_scan scan_id (failed e) st

  -- The `try` of `run_scan` and of the job around what may raise.
  unfoldable pub guarded : {A : Type 0} → ℕ → Result A × Store fl → Result A × Store fl
  unfolding fail_scan
  guarded scan_id (ok a, st) = (ok a, st)
  guarded scan_id (raise e, st) = (raise e, fail_scan scan_id e st)

  -- What the loop of `run_scan` does with the result of a slice; `next` is its next round.
  unfoldable pub after_slice :
      CurateArgs
      → ℕ
      → Result Bool
      → Store fl
      → (Store fl → Result ℕ × Store fl)
      → Result ℕ × Store fl
  unfolding finalize_scan
  after_slice curation scan_id (raise e) st next = (raise e, st)
  after_slice curation scan_id (ok true) st next = next st
  after_slice curation scan_id (ok false) st next = finalize_scan curation scan_id st

  -- At most `left` slices, then the end. A slice takes its arguments from the number of slices that
  -- are left; the `else` of the loop raises.
  unfoldable pub slices : (ℕ → SliceArgs fl) → CurateArgs → ℕ → ℕ → Store fl → Result ℕ × Store fl
  unfolding advance_scan after_slice
  slices args curation scan_id zero st = (raise exceeded, st)
  slices args curation scan_id (suc left) st =
      let (r, st') = advance_scan (args left) scan_id st in
      after_slice curation scan_id r st' (slices args curation scan_id left)

  unfoldable pub run_scan : (ℕ → SliceArgs fl) → CurateArgs → ℕ → ℕ → Store fl → Result ℕ × Store fl
  unfolding slices guarded
  run_scan args curation max_slices scan_id st =
      guarded scan_id (slices args curation scan_id max_slices st)

  unfoldable pub job_end : CurateArgs → ℕ → Bool → Store fl → Result JobEnd × Store fl
  unfolding finalize_scan guarded
  job_end curation scan_id true st = (ok queued_next, st)
  job_end curation scan_id false st =
      let (r, st') = guarded scan_id (finalize_scan curation scan_id st) in
      elim r [ raise e ↦ (raise e, st') | ok _ ↦ (ok complete, st') ]

  unfoldable pub run_scan_job : SliceArgs fl → CurateArgs → ℕ → Store fl → Result JobEnd × Store fl
  unfolding advance_scan guarded job_end
  run_scan_job args curation scan_id st =
      let (r, st') = guarded scan_id (advance_scan args scan_id st) in
      elim r [ raise e ↦ (raise e, st') | ok more ↦ job_end curation scan_id more st' ]
