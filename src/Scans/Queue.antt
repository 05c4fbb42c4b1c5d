-- ===== src/Scans/Queue.antt =====
-- How scans are created, queued, claimed and revived: `create_scan`, `create_collection_scan`,
-- `claim_queued_scans` and `reclaim_stalled_scans` of backend/app/crawl/scan_service.py, `run_scan`
-- of backend/app/api/scans.py and `poll_scans` of backend/app/worker.py.
pub mod Polls
use bandcamp_curate.Base.{
  ℕ, suc, ◌+◌, ◌-◌, Bool, true, false, ◌&&◌, not, Option, none, some, List, [], ◌∷◌, ◌++◌, map,
  ◌==◌, leb, ltb, if◌then◌else◌, Text, codes, same_text, any, length, where_rows, Result, ok, raise,
  ◌>>=◌, invalid, not_found, unsupported,
}
use bandcamp_curate.Frontier.Tables.{CrawlKind, album, track}
use bandcamp_curate.Urls.{parse_seed_url, strip}
use bandcamp_curate.Curation.Scoring.{Floats, ItemType}
use bandcamp_curate.Scans.Tables.{
  ScanKind, collection, custom, ScanStatus, queued, running, same_scan_status, Beat, at, unreadable,
  ScanStats, Scan, ScanSeed, Store, get_scan, write_scan,
}

-- The seeds by their cleaned URLs, the first of each; an invalid URL raises.
unfoldable pub clean_seeds : List Text → List (Text × CrawlKind) → Result (List (Text × CrawlKind))
unfolding parse_seed_url
clean_seeds [] seeds = ok seeds
clean_seeds (u ∷ urls) seeds = parse_seed_url u >>= λ (clean, kind).
    clean_seeds urls
      (if any (λ s. same_text s.0 clean) seeds then seeds else seeds ++ (clean, kind) ∷ [])

-- `seed_type`, by the kind in the URL.
unfoldable pub seed_type : CrawlKind → ItemType
seed_type album = ItemType.album
seed_type _ = ItemType.track

unfoldable pub new_scan : ℕ → ℕ → Text → ScanKind → Scan
new_scan id user_id name kind = record {
  id = id;
  user_id = user_id;
  name = name;
  kind = kind;
  status = queued;
  error_text = none;
  last_run_at = none;
  recompute_generation = 0;
  stats = record {
    slices_run = none;
    last_slice_at = none;
    recommendations = none;
    credits = none;
    curation = none;
  };
}

unfoldable pub new_seed : ℕ → Text × CrawlKind → ScanSeed
unfolding seed_type
new_seed scan_id (clean, kind) = record {
  scan_id = scan_id;
  url = clean;
  seed_type = seed_type kind;
  resolved_album_id = none;
  resolved_track_id = none;
}

-- `if not name`, `if not seeds`
abbrev empty : {A : Type 0} → List A → Bool
empty [] = true
empty (x ∷ xs) = false

-- The checks of `create_scan`, in their order: the name, then the URLs, then how many remain.
unfoldable pub checked : ℕ → Text → List Text → Result (List (Text × CrawlKind))
unfolding clean_seeds strip
checked max_seeds name urls =
    if empty (strip name)
    then raise invalid
    else clean_seeds urls [] >>= λ seeds.
        if empty seeds
        then raise invalid
        else if ltb max_seeds (length seeds)
        then raise invalid
        else ok seeds

-- The row of a new scan; the frontier's foreign key may point at it from then on.
unfoldable pub add_scan : {fl : Floats} → Scan → Store fl → Store fl
add_scan s st = record st {
  scans = st.scans ++ s ∷ [];
  next_scan_id = suc st.next_scan_id;
  frontier = record (st.frontier) { scans = st.frontier.scans ++ s.id ∷ [] };
}

unfoldable pub create_scan :
    {fl : Floats} → ℕ → Text → List Text → ℕ → Store fl → Result Scan × Store fl
unfolding checked new_scan new_seed add_scan strip
create_scan user_id name urls max_seeds st = elim (checked max_seeds name urls) [
  | raise e ↦ (raise e, st)
  | ok seeds ↦
      let s = new_scan st.next_scan_id user_id (strip name) custom in
      let st' = add_scan s st in
      (ok s, record st' { seeds = st'.seeds ++ map (new_seed s.id) seeds })
]

unfoldable pub create_collection_scan : {fl : Floats} → ℕ → Store fl → Scan × Store fl
unfolding new_scan add_scan
create_collection_scan user_id st =
    let s = new_scan st.next_scan_id user_id (codes "My collection") collection in
    (s, add_scan s st)

abbrev is_queued : Scan → Bool
is_queued s = same_scan_status s.status queued

abbrev with_status : ScanStatus → Scan → Scan
with_status status s = record s { status = status }

-- `UPDATE … SET status WHERE test RETURNING id`, on the list of scans.
unfoldable pub set_where : (Scan → Bool) → ScanStatus → List Scan → List ℕ × List Scan
set_where test status [] = ([], [])
set_where test status (s ∷ scans) =
    let (ids, rest) = set_where test status scans in
    if test s then (s.id ∷ ids, record s { status = status } ∷ rest) else (ids, s ∷ rest)

unfoldable pub claim_queued_scans : {fl : Floats} → Store fl → List ℕ × Store fl
unfolding set_where same_scan_status
claim_queued_scans st =
    let (ids, scans) = set_where is_queued running st.scans in (ids, record st { scans = scans })

-- A heartbeat that is after the cutoff.
unfoldable pub warm : ℕ → Option Beat → Bool
warm cutoff none = false
warm cutoff (some unreadable) = false
warm cutoff (some (at t)) = ltb cutoff t

unfoldable pub stalled : ℕ → Scan → Bool
unfolding warm same_scan_status
stalled cutoff s = same_scan_status s.status running && not (warm cutoff s.stats.last_slice_at)

unfoldable pub reclaim_stalled_scans : {fl : Floats} → ℕ → ℕ → Store fl → List ℕ × Store fl
unfolding set_where stalled
reclaim_stalled_scans now stalled_after st =
    let (ids, scans) = set_where (stalled (now - stalled_after)) queued st.scans in
    (ids, record st { scans = scans })

-- The endpoint that queues a scan again; its answers are 404 and 409.
unfoldable pub requeue_scan : {fl : Floats} → ℕ → ℕ → Store fl → Result ℕ × Store fl
unfolding get_scan write_scan same_scan_status
requeue_scan user_id scan_id st = elim (get_scan scan_id st.scans) [
  | none ↦ (raise not_found, st)
  | some s ↦
      if not (s.user_id == user_id)
      then (raise not_found, st)
      else if same_scan_status s.status running
      then (raise unsupported, st)
      else (
        ok scan_id,
        write_scan scan_id (λ r. record r { status = queued; error_text = none }) st,
      )
]

-- `poll_scans`: the ids for which a `run_scan` job is put on the job queue.
unfoldable pub poll_scans : {fl : Floats} → ℕ → ℕ → Store fl → List ℕ × Store fl
unfolding reclaim_stalled_scans claim_queued_scans
poll_scans now stalled_after st =
    let (_, st') = reclaim_stalled_scans now stalled_after st in claim_queued_scans st'
