-- ===== src/Scans/Slice.antt =====
-- One slice of a scan: `advance_scan`, `_curate_progress` and `_self_crawl_complete` of
-- backend/app/crawl/scan_service.py. The crawl of the slice (`runner.run_until_empty`, with all its
-- workers) is an argument: the outcomes, or the exception, and the tables it leaves. The reading of
-- the scan's owner may raise; the queries of the database are taken to answer.
use bandcamp_curate.Base.{
  ℕ, ◌*◌, Bool, true, false, ◌&&◌, not, Option, none, some, List, [], ◌∷◌, ◌==◌, ltb, if◌then◌else◌,
  Text, same_text, find, is_some, length, Result, ok, raise, internal,
}
use bandcamp_curate.Frontier.Tables.{fan_collection, done, Entry, has_key, same_kind, same_status}
use bandcamp_curate.Frontier.Marks.{pending_count}
use bandcamp_curate.Crawl.Database.{CrawlOutcome, scan_budget_exhausted}
use bandcamp_curate.Curation.Scoring.{Floats}
use bandcamp_curate.Scans.Tables.{User, Store, get_scan, write_scan}
use bandcamp_curate.Scans.Curate.{CurateArgs, resolve_seeds, curate}
use bandcamp_curate.Scans.Start.{ScanPlan, start_scan}

-- `SCAN_SLICE_ENTRIES`, `ENTRIES_PER_WORKER`
abbrev pub scan_slice_entries : ℕ
scan_slice_entries = 10

abbrev pub entries_per_worker : ℕ
entries_per_worker = 8

unfoldable pub self_crawl_complete : Option Text → ℕ → List Entry → Bool
unfolding has_key same_status
self_crawl_complete none scan_id rows = true
self_crawl_complete (some url) scan_id rows =
    elim (find (has_key scan_id url fan_collection) rows) [
      | none ↦ false
      | some e ↦ same_status e.status done
    ]

-- `next(o.fan_id for o in outcomes if …)`
unfoldable pub own_fan : Option Text → List CrawlOutcome → Option ℕ
unfolding same_kind
own_fan self_url [] = none
own_fan none (o ∷ outcomes) = none
own_fan (some url) (o ∷ outcomes) =
    let rest = own_fan (some url) outcomes in
    if same_kind o.kind fan_collection && (same_text o.url url && is_some o.fan_id)
    then o.fan_id
    else rest

unfoldable pub set_fan : ℕ → ℕ → List User → List User
set_fan user_id fan [] = []
set_fan user_id fan (u ∷ users) =
    let rest = set_fan user_id fan users in
    if u.id == user_id && not (is_some u.fan_id)
    then record u { fan_id = some fan } ∷ rest
    else u ∷ rest

-- What a slice is run with: its time, the caps, the settings and the crawl.
pub record SliceArgs (fl : Floats) : Type 0 where
  pub now : ℕ
  pub frontier_cap : Option ℕ
  pub max_requests : Option ℕ
  pub slice_entries : ℕ
  pub concurrency : ℕ
  pub curate_each_slice : Bool
  pub curation : CurateArgs
  pub crawl : ScanPlan → ℕ → Store fl → Result (List CrawlOutcome) × Store fl

abbrev max_of : ℕ → ℕ → ℕ
max_of m n = if ltb m n then n else m

module _ {fl : Floats} where
  -- The result of the interim curation on the scan; an exception is only logged.
  unfoldable pub note_progress : CurateArgs → ℕ → Store fl → Store fl
  unfolding curate write_scan
  note_progress args scan_id st =
      let (r, st') = curate args scan_id st in
      elim r [
        | raise e ↦ st'
        | ok (scored, stats) ↦
            write_scan scan_id
              (λ s. record s {
                stats = record (s.stats) {
                  recommendations = some (length scored);
                  curation = some stats;
                };
              })
              st'
      ]

  unfoldable pub curate_progress : CurateArgs → ℕ → Option Text → Store fl → Store fl
  unfolding self_crawl_complete resolve_seeds note_progress
  curate_progress args scan_id self_url st =
      if self_crawl_complete self_url scan_id st.frontier.rows
      then note_progress args scan_id (resolve_seeds scan_id st)
      else st

  -- The owner's fan is linked as soon as its page is read; a scan that is gone has no `user_id`.
  unfoldable pub link_owner : ℕ → Option ℕ → Store fl → Result (Unit {0}) × Store fl
  unfolding get_scan set_fan
  link_owner scan_id none st = (ok tt, st)
  link_owner scan_id (some fan) st = elim (get_scan scan_id st.scans) [
    | none ↦ (raise internal, st)
    | some s ↦ (ok tt, record st { users = set_fan s.user_id fan st.users })
  ]

  -- The entries of the slice: the first visit of the own page has a slice to itself.
  unfoldable pub entries_of : SliceArgs fl → ScanPlan → ℕ
  entries_of args plan =
      if is_some plan.self_url && not (is_some plan.seed_fan_id)
      then 1
      else max_of args.slice_entries (args.concurrency * entries_per_worker)

  -- Whether more work remains.
  unfoldable pub more_work : SliceArgs fl → ℕ → Store fl → Bool
  unfolding scan_budget_exhausted pending_count
  more_work args scan_id st =
      if scan_budget_exhausted scan_id args.max_requests st.usage
      then false
      else ltb 0 (pending_count none scan_id st.frontier.rows)

  -- What follows the link of the owner.
  unfoldable pub after_link :
      SliceArgs fl → ℕ → ScanPlan → Result (Unit {0}) × Store fl → Result Bool × Store fl
  unfolding curate_progress more_work
  after_link args scan_id plan (raise e, st) = (raise e, st)
  after_link args scan_id plan (ok _, linked) =
      let st' =
        if args.curate_each_slice
        then curate_progress args.curation scan_id plan.self_url linked
        else linked in
      (ok (more_work args scan_id st'), st')

  -- What follows the crawl of the slice.
  unfoldable pub after_crawl :
      SliceArgs fl → ℕ → ScanPlan → Result (List CrawlOutcome) × Store fl → Result Bool × Store fl
  unfolding own_fan link_owner after_link
  after_crawl args scan_id plan (raise e, st) = (raise e, st)
  after_crawl args scan_id plan (ok outcomes, st) =
      after_link args scan_id plan (link_owner scan_id (own_fan plan.self_url outcomes) st)

  unfoldable pub run_slice : SliceArgs fl → ℕ → ScanPlan → Store fl → Result Bool × Store fl
  unfolding entries_of after_crawl
  run_slice args scan_id plan st =
      after_crawl args scan_id plan (args.crawl plan (entries_of args plan) st)

  unfoldable pub advance_scan : SliceArgs fl → ℕ → Store fl → Result Bool × Store fl
  unfolding start_scan run_slice
  advance_scan args scan_id st =
      let (r, st') = start_scan args.now args.frontier_cap scan_id st in
      elim r [ raise e ↦ (raise e, st') | ok plan ↦ run_slice args scan_id plan st' ]
