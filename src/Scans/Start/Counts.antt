-- ===== src/Scans/Start/Counts.antt =====
-- The count of slices: `start_scan` of backend/app/crawl/scan_service.py bounds every chain.
use bandcamp_curate.Base.{
  ◌∙◌, ltb, ◌<◌, ◌⊎◌, refl, exceeded, Bool-cases, inr, inl, Option-cases, Text, ap, arith, Option,
  ℕ, ◌+◌, ◌≤◌, some, ◌≡◌, if◌then◌else◌, Result, ok, raise,
}
use bandcamp_curate.Curation.Scoring.{Floats}
use bandcamp_curate.Scans.Tables.{
  Scan, running, same_scan_status, Store, get_scan, get_user, User, write_scan,
}
use bandcamp_curate.Scans.Tables.Rows.{map_scan, get_scan-update_scan}
use bandcamp_curate.Scans.Start.{
  own_page, Table, commit_plan, start_scan, plan_scan, started, max_scan_slices, or_zero, ScanPlan,
}

-- The slices that the run of the scan has begun, before this one: none where it does not run.
unfoldable pub slices_before : Scan → ℕ
slices_before s = if same_scan_status s.status running then or_zero s.stats.slices_run else 0

-- The row of the scan runs, with one slice more in its count.
abbrev pub Counted : {fl : Floats} → ℕ → Scan → Store fl → Type 0
Counted scan_id s st =
    (s' : Scan) × (get_scan scan_id st.scans ≡ some s')
    × (s'.status ≡ running)
    × (s'.stats.slices_run ≡ some (slices_before s + 1))

-- What `start_scan` leaves of the scan: with a plan, and with an exception.
unfoldable pub Started : {fl : Floats} → ℕ → Scan → Store fl → Result ScanPlan × Store fl → Type 0
Started scan_id s st (ok plan, st') =
    Counted scan_id s st' × (slices_before s + 1 ≤ max_scan_slices)
Started scan_id s st (raise e, st') =
    ((e ≡ exceeded) × (Counted scan_id s st') × (max_scan_slices < slices_before s + 1))
    ⊎ (st' ≡ st)

started-Counts :
    (now : ℕ) (s : Scan)
    → ((started now s).status ≡ running)
      × ((started now s).stats.slices_run ≡ some (slices_before s + 1))
      × ((started now s).id ≡ s.id)
unfolding started slices_before
started-Counts now s = (ground arith, ground arith, ground arith)

written :
    {fl : Floats} (now scan_id : ℕ) (st : Store fl) (s : Scan)
    → get_scan scan_id st.scans ≡ some s
    → get_scan scan_id (write_scan scan_id (started now) st).scans ≡ some (started now s)
unfolding write_scan
written now scan_id st s at =
    get_scan-update_scan scan_id (started now) st.scans (λ r. (started-Counts now r).2)
    ∙ ap (map_scan (started now)) at

commit_plan-Started :
    {fl : Floats} (now scan_id : ℕ) (s : Scan) (owner : User) (page : Option Text) (st : Store fl)
    (r : Result Table)
    → get_scan scan_id st.scans ≡ some s
    → slices_before s + 1 ≤ max_scan_slices
    → Started scan_id s st (commit_plan now scan_id owner page st r)
unfolding commit_plan Started
commit_plan-Started now scan_id s owner page st (raise e) at le = inr refl
commit_plan-Started now scan_id s owner page st (ok t) at le =
    let counts = started-Counts now s in
    ((started now s, written now scan_id (record st { frontier = t }) s at, counts.0, counts.1), le)

plan_scan-Started :
    {fl : Floats} (now : ℕ) (setting : Option ℕ) (scan_id : ℕ) (s : Scan) (owner : User)
    (st : Store fl) (page : Result (Option Text))
    → get_scan scan_id st.scans ≡ some s
    → slices_before s + 1 ≤ max_scan_slices
    → Started scan_id s st (plan_scan now setting scan_id owner st page)
unfolding plan_scan Started
plan_scan-Started now setting scan_id s owner st (raise e) at le = inr refl
plan_scan-Started now setting scan_id s owner st (ok page) at le =
    commit_plan-Started now scan_id s owner page st _ at le

-- For a scan that is in the table: where `start_scan` gives a plan, the scan runs afterwards, with
-- one slice more in the count of this run than before, and that count is at most MAX_SCAN_SLICES.
-- Where it raises, either nothing has changed, or the slice was refused because the count with it
-- passes MAX_SCAN_SLICES, and then it is in the count all the same and the scan runs.
pub start_scan-Started :
    {fl : Floats} (now : ℕ) (setting : Option ℕ) (scan_id : ℕ) (st : Store fl) (s : Scan)
    → get_scan scan_id st.scans ≡ some s
    → Started scan_id s st (start_scan now setting scan_id st)
unfolding start_scan Started
start_scan-Started now setting scan_id st s at =
    let counts = started-Counts now s in
    elim (Option-cases (get_user s.user_id st.users)) [
      | inl gone ↦ rw (at, start_scan, Started) (rw (gone, start_scan, Started) (inr refl))
      | inr (owner, found) ↦
          elim (Bool-cases (ltb max_scan_slices (or_zero (started now s).stats.slices_run))) [
            | inl many ↦
                rw (at, start_scan, Started)
                  (rw (found, start_scan, Started)
                    (rw (many, Started)
                      (inl (
                        refl,
                        (started now s, written now scan_id st s at, counts.0, counts.1),
                        ground (arith, many, ap or_zero counts.1),
                      ))))
            | inr few ↦
                rw (at, start_scan, Started)
                  (rw (found, start_scan, Started)
                    (rw (few, Started)
                      (plan_scan-Started now setting scan_id s owner st (own_page s owner) at
                        (ground (arith, few, ap or_zero (started-Counts now s).1)))))
          ]
    ]
