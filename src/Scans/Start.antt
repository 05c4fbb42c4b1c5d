-- ===== src/Scans/Start.antt =====
-- The start of a slice: `start_scan` of backend/app/crawl/scan_service.py.
pub mod Counts
use bandcamp_curate.Base.{
  ℕ, suc, ◌+◌, ◌*◌, Bool, true, false, ◌&&◌, ◌||◌, not, Option, none, some, List, [], ◌∷◌, ◌++◌,
  map, ◌==◌, ltb, leb, if◌then◌else◌, Text, same_text, find, is_some, where_rows, length, Result,
  ok, raise, ◌>>=◌, invalid, not_found, exceeded, opt_is,
}
use bandcamp_curate.Frontier.Tables.{
  CrawlKind, fan_collection, done, Table, Entry, has_key, same_kind, same_status,
}
use bandcamp_curate.Frontier.Enqueue.{Job, enqueue}
use bandcamp_curate.Frontier.Marks.{pending_count}
use bandcamp_curate.Crawl.Database.{CrawlOutcome, scan_budget_exhausted}
use bandcamp_curate.Curation.Scoring.{Floats, ItemType}
use bandcamp_curate.Scans.Tables.{
  ScanKind, collection, custom, ScanStatus, running, same_scan_status, Beat, at, ScanStats, Scan,
  ScanSeed, User, Store, get_scan, get_user, write_scan,
}
use bandcamp_curate.Scans.Curate.{CurateArgs, of_scan, resolve_seeds, curate}

-- `MAX_SCAN_SLICES`
abbrev pub max_scan_slices : ℕ
max_scan_slices = 10000

-- `SELF_FAN_PRIORITY`, `SEED_PRIORITY`
abbrev pub self_fan_priority : ℕ
self_fan_priority = 100

abbrev pub seed_priority : ℕ
seed_priority = 90

pub record ScanPlan : Type 0 where
  pub self_url : Option Text
  pub seed_fan_id : Option ℕ
  pub user_id : ℕ

-- `stats.get("slices_run", 0)`
abbrev or_zero : Option ℕ → ℕ
or_zero none = 0
or_zero (some n) = n

-- The scan as a slice starts: a scan that does not run begins a new count.
unfoldable pub started : ℕ → Scan → Scan
unfolding same_scan_status
started now s =
    if same_scan_status s.status running
    then record s {
      stats = record (s.stats) {
        slices_run = some (or_zero s.stats.slices_run + 1);
        last_slice_at = some (at now);
      };
    }
    else record s {
      status = running;
      error_text = none;
      stats = record {
        slices_run = some 1;
        last_slice_at = some (at now);
        recommendations = none;
        credits = none;
        curation = none;
      };
    }

unfoldable pub kind_of_seed : ItemType → CrawlKind
kind_of_seed ItemType.album = CrawlKind.album
kind_of_seed ItemType.track = CrawlKind.track

-- The own fan page of a collection scan: an owner without one raises. Other scans have none.
unfoldable pub own_page : Scan → User → Result (Option Text)
own_page s owner = elim s.kind [
  | collection ↦ elim owner.bandcamp_fan_url [
    | none ↦ raise invalid
    | some url ↦ elim url [ [] ↦ raise invalid | c ∷ rest ↦ ok (some (c ∷ rest)) ]
  ]
  | custom ↦ ok none
]

unfoldable pub self_jobs : ℕ → Option Text → List Job
self_jobs scan_id none = []
self_jobs scan_id (some url) =
    record {
      scan_id = scan_id;
      url = url;
      kind = fan_collection;
      priority = self_fan_priority;
      depth = 0;
    }
    ∷ []

unfoldable pub seed_job : ScanSeed → Job
unfolding kind_of_seed
seed_job s = record {
  scan_id = s.scan_id;
  url = s.url;
  kind = kind_of_seed s.seed_type;
  priority = seed_priority;
  depth = 0;
}

unfoldable pub enqueue_all : ℕ → Option ℕ → List Job → Table → Result Table
unfolding enqueue
enqueue_all now setting [] t = ok t
enqueue_all now setting (j ∷ jobs) t =
    let (r, t') = enqueue now setting t j in r >>= λ added. enqueue_all now setting jobs t'

-- The commit, once the work of the scan is on the frontier. An exception rolls all back.
unfoldable pub commit_plan :
    {fl : Floats}
    → ℕ
    → ℕ
    → User
    → Option Text
    → Store fl
    → Result Table
    → Result ScanPlan × Store fl
unfolding started write_scan
commit_plan now scan_id owner self_url st (raise e) = (raise e, st)
commit_plan now scan_id owner self_url st (ok t) = (
  ok (record { self_url = self_url; seed_fan_id = owner.fan_id; user_id = owner.id }),
  write_scan scan_id (started now) (record st { frontier = t }),
)

-- What follows the count, for the own page or the exception of a missing one.
unfoldable pub plan_scan :
    {fl : Floats}
    → ℕ
    → Option ℕ
    → ℕ
    → User
    → Store fl
    → Result (Option Text)
    → Result ScanPlan × Store fl
unfolding commit_plan self_jobs seed_job enqueue_all
plan_scan now setting scan_id owner st (raise e) = (raise e, st)
plan_scan now setting scan_id owner st (ok self_url) = commit_plan now scan_id owner self_url st (
    enqueue_all now setting
      (self_jobs scan_id self_url ++ map seed_job (where_rows (of_scan scan_id) st.seeds))
      st.frontier)

unfoldable pub start_scan : {fl : Floats} → ℕ → Option ℕ → ℕ → Store fl → Result ScanPlan × Store fl
unfolding get_scan get_user started write_scan own_page plan_scan
start_scan now setting scan_id st = elim (get_scan scan_id st.scans) [
  | none ↦ (raise not_found, st)
  | some s ↦ elim (get_user s.user_id st.users) [
    | none ↦ (raise not_found, st)
    | some owner ↦
        if ltb max_scan_slices (or_zero (started now s).stats.slices_run)
        then (raise exceeded, write_scan scan_id (started now) st)
        else plan_scan now setting scan_id owner st (own_page s owner)
  ]
]
