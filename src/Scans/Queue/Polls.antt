-- ===== src/Scans/Queue/Polls.antt =====
-- What a poll of the queue dispatches (`poll_scans` of backend/app/worker.py).
use bandcamp_curate.Base.{
  not, ◌&&◌, ◌∙◌, arith, ℕ, ◌-◌, Bool, ◌||◌, List, [], ◌∷◌, map, ◌≡◌, refl, if◌then◌else◌,
  where_rows, ap,
}
use bandcamp_curate.Curation.Scoring.{Floats}
use bandcamp_curate.Scans.Tables.{queued, running, same_scan_status, Scan, Store}
use bandcamp_curate.Scans.Queue.{
  warm, set_where, claim_queued_scans, stalled, reclaim_stalled_scans, poll_scans, is_queued,
}

-- Whether a poll dispatches the scan: it is queued, or it runs without a warm heartbeat.
unfoldable pub due : ℕ → Scan → Bool
due cutoff s = is_queued s || stalled cutoff s

abbrev pub dispatched : ℕ → Scan → Scan
dispatched cutoff s = if due cutoff s then record s { status = running } else s

two_passes :
    (cutoff : ℕ) (scans : List Scan)
    → set_where is_queued running (set_where (stalled cutoff) queued scans).1
      ≡ (map (λ (s : Scan). s.id) (where_rows (due cutoff) scans), map (dispatched cutoff) scans)
unfolding set_where due stalled same_scan_status
two_passes cutoff [] = refl
two_passes cutoff (s ∷ scans) = ground (arith, two_passes cutoff scans)

-- A poll dispatches, in the table's order, exactly the scans that are queued or that run without a
-- warm heartbeat; these run afterwards, and the other scans are as they were.
pub poll_scans-due :
    {fl : Floats} (now stalled_after : ℕ) (st : Store fl)
    → ((poll_scans now stalled_after st).0
        ≡ map (λ (s : Scan). s.id) (where_rows (due (now - stalled_after)) st.scans))
      × ((poll_scans now stalled_after st).1.scans
          ≡ map (dispatched (now - stalled_after)) st.scans)
unfolding poll_scans claim_queued_scans reclaim_stalled_scans
poll_scans-due now stalled_after st =
    let h = two_passes (now - stalled_after) st.scans in (ap (λ r. r.0) h, ap (λ r. r.1) h)

-- A scan that is queued or runs, and whose heartbeat is not warm.
unfoldable pub unattended : ℕ → Scan → Bool
unattended cutoff s =
    (is_queued s || same_scan_status s.status running) && not (warm cutoff s.stats.last_slice_at)

due_again :
    (first second : ℕ) (scans : List Scan)
    → map (λ (s : Scan). s.id) (where_rows (due second) (map (dispatched first) scans))
      ≡ map (λ (s : Scan). s.id) (where_rows (unattended second) scans)
unfolding due stalled same_scan_status unattended
due_again first second [] = refl
due_again first second (s ∷ scans) = ground (arith, due_again first second scans)

-- A poll right after another dispatches every scan once more that was queued or running before both
-- and whose heartbeat is not warm, since claiming a scan writes no heartbeat: a scan whose first
-- job has not begun by the next poll gets a second job.
pub poll_scans_again :
    {fl : Floats} (now₁ now₂ stalled_after : ℕ) (st : Store fl)
    → (poll_scans now₂ stalled_after (poll_scans now₁ stalled_after st).1).0
      ≡ map (λ (s : Scan). s.id) (where_rows (unattended (now₂ - stalled_after)) st.scans)
poll_scans_again now₁ now₂ stalled_after st =
    (poll_scans-due now₂ stalled_after (poll_scans now₁ stalled_after st).1).0
    ∙ ap (λ scans. map (λ (s : Scan). s.id) (where_rows (due (now₂ - stalled_after)) scans))
        (poll_scans-due now₁ stalled_after st).1
    ∙ due_again (now₁ - stalled_after) (now₂ - stalled_after) st.scans
