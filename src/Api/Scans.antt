-- ===== src/Api/Scans.antt =====
-- backend/app/api/scans.py: the creation, details, list and deletion of a user's scans. `run_scan` is
-- `requeue_scan` of Scans/Queue, followed by the details.
pub mod Deletion
use bandcamp_curate.Base.{
  ℕ, Bool, not, Option, none, some, List, map, ◌==◌, if◌then◌else◌, Text, where_rows, count_rows,
  length, opt_is, Result, ok, raise, Error, not_found, unsupported,
}
use bandcamp_curate.Frontier.Tables.{Entry}
use bandcamp_curate.Crawl.Database.{Usage}
use bandcamp_curate.Curation.Scoring.{Floats, ItemType}
use bandcamp_curate.Scans.Tables.{
  ScanKind, ScanStatus, ScanStats, Scan, ScanSeed, Recommendation, Store, get_scan,
}
use bandcamp_curate.Scans.Queue.{create_scan}
use bandcamp_curate.Scans.Curate.{of_scan}
use bandcamp_curate.Api.Feed.{is_collection}

pub record SeedOut : Type 0 where
  pub url : Text
  pub seed_type : ItemType
  pub resolved_album_id : Option ℕ
  pub resolved_track_id : Option ℕ

pub record ScanOut : Type 0 where
  pub id : ℕ
  pub name : Text
  pub kind : ScanKind
  pub status : ScanStatus
  pub error : Option Error
  pub seed_count : ℕ
  pub rec_count : ℕ
  pub last_run_at : Option ℕ
  pub stats : ScanStats
  pub recompute_generation : ℕ

unfoldable pub to_out : Scan → ℕ → ℕ → ScanOut
to_out s seed_count rec_count = record {
  id = s.id;
  name = s.name;
  kind = s.kind;
  status = s.status;
  error = s.error_text;
  seed_count = seed_count;
  rec_count = rec_count;
  last_run_at = s.last_run_at;
  stats = s.stats;
  recompute_generation = s.recompute_generation;
}

unfoldable pub seed_out : ScanSeed → SeedOut
seed_out s = record {
  url = s.url;
  seed_type = s.seed_type;
  resolved_album_id = s.resolved_album_id;
  resolved_track_id = s.resolved_track_id;
}

module _ {fl : Floats} where
  abbrev pub rec_of : ℕ → Recommendation fl → Bool
  rec_of scan_id r = r.scan_id == scan_id

  -- The scan with its two counts.
  unfoldable pub scan_out : Store fl → Scan → ScanOut
  unfolding to_out
  scan_out st s =
      to_out s (count_rows (of_scan s.id) st.seeds) (count_rows (rec_of s.id) st.recommendations)

  -- `_detail`
  unfoldable pub detail : ℕ → ℕ → Store fl → Result (ScanOut × List SeedOut)
  unfolding get_scan to_out seed_out
  detail scan_id user st = elim (get_scan scan_id st.scans) [
    | none ↦ raise not_found
    | some s ↦
        let seeds = where_rows (of_scan scan_id) st.seeds in
        if not (s.user_id == user)
        then raise not_found
        else ok (
          to_out s (length seeds) (count_rows (rec_of scan_id) st.recommendations),
          map seed_out seeds,
        )
  ]

  -- The details of the scan that a handler has made.
  unfoldable pub detailed : ℕ → Result Scan × Store fl → Result (ScanOut × List SeedOut) × Store fl
  unfolding detail
  detailed user (raise e, st) = (raise e, st)
  detailed user (ok s, st) = (detail s.id user st, st)

  -- The endpoint `create`, with the limit of seeds.
  unfoldable pub create :
      ℕ → ℕ → Text → List Text → Store fl → Result (ScanOut × List SeedOut) × Store fl
  unfolding create_scan detailed
  create max_seeds user name urls st = detailed user (create_scan user name urls max_seeds st)

  -- The scans stand in the order of their ids.
  unfoldable pub list_scans : ℕ → Store fl → List ScanOut
  unfolding scan_out
  list_scans user st = map (scan_out st) (where_rows (λ s. s.user_id == user) st.scans)

  -- The three deletions and that of the row, which takes the seeds with it.
  unfoldable pub drop_scan : ℕ → Store fl → Store fl
  drop_scan scan_id st = record st {
    recommendations = where_rows (λ r. not (rec_of scan_id r)) st.recommendations;
    frontier = record (st.frontier) {
      rows = where_rows (λ (e : Entry). not (e.scan_id == scan_id)) st.frontier.rows;
      scans = where_rows (λ n. not (n == scan_id)) st.frontier.scans;
    };
    usage = where_rows (λ (u : Usage). not (opt_is u.scan_id scan_id)) st.usage;
    seeds = where_rows (λ s. not (of_scan scan_id s)) st.seeds;
    scans = where_rows (λ s. not (s.id == scan_id)) st.scans;
  }

  -- `delete_scan` from the row that was found; its refusals are 404 and 400.
  unfoldable pub delete_found : ℕ → ℕ → Option Scan → Store fl → Result ℕ × Store fl
  unfolding is_collection drop_scan
  delete_found scan_id user none st = (raise not_found, st)
  delete_found scan_id user (some s) st =
      if not (s.user_id == user)
      then (raise not_found, st)
      else if is_collection s.kind
      then (raise unsupported, st)
      else (ok scan_id, drop_scan scan_id st)

  unfoldable pub delete_scan : ℕ → ℕ → Store fl → Result ℕ × Store fl
  unfolding get_scan delete_found
  delete_scan scan_id user st = delete_found scan_id user (get_scan scan_id st.scans) st
