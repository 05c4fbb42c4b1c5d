-- ===== src/Tests/Chains.antt =====
-- A collection scan, and the theorems on backend/app/crawl/scan_service.py for it.
use bandcamp_curate.Base.{ok, arith, ◌≡◌, refl, true, none, some, [], ◌∷◌, map, codes, where_rows}
use bandcamp_curate.Scans.Tables.{Recommendation, collection, queued, Scan, User, Store, get_scan}
use bandcamp_curate.Scans.Queue.{poll_scans}
use bandcamp_curate.Scans.Queue.Polls.{unattended, poll_scans_again}
use bandcamp_curate.Scans.Curate.{CurateArgs, request_of, curate}
use bandcamp_curate.Curation.Ranking.{compute_recommendations}
use bandcamp_curate.Curation.Ranking.Descending.{IsOrder}
use bandcamp_curate.Api.Feed.{Sort}
use bandcamp_curate.Api.Feed.Pages.{feed_rows}
use bandcamp_curate.Api.Feed.Curated.{unfiltered, feed_rows-curate}
use bandcamp_curate.Scans.Slice.{SliceArgs}
use bandcamp_curate.Scans.Start.{start_scan}
use bandcamp_curate.Scans.Start.Counts.{Started, start_scan-Started}
use bandcamp_curate.Scans.Finish.{run_scan}
use bandcamp_curate.Scans.Finish.Outcomes.{Ended, run_scan-Ended}
use bandcamp_curate.Tests.Ranks.{whole, library}
use bandcamp_curate.Tests.Queue.{two_entries}

abbrev my_scan : Scan
my_scan = record {
  id = 5;
  user_id = 9;
  name = codes "My collection";
  kind = collection;
  status = queued;
  error_text = none;
  last_run_at = none;
  recompute_generation = 0;
  stats = record {
    slices_run = none;
    last_slice_at = none;
    recommendations = none;
    credits = none;
    curation = none;
  };
}

abbrev me : User
me = record {
  id = 9;
  username = codes "me";
  password_hash = codes "hash";
  bandcamp_fan_url = some (codes "https://x.y/fan");
  fan_id = some 1;
  failed_login_attempts = 0;
  locked_until = none;
}

abbrev store : Store whole
store = record {
  scans = my_scan ∷ [];
  next_scan_id = 6;
  seeds = [];
  users = me ∷ [];
  next_user_id = 10;
  fans = 1 ∷ 2 ∷ [];
  recommendations = [];
  frontier = two_entries;
  usage = [];
  library = library;
}

abbrev curation : CurateArgs
curation = record {
  now = 50;
  limit = none;
  exclude_seed_tags = [];
  min_co_owners = 1;
  weighted = true;
}

-- A slice that crawls nothing.
abbrev idle : SliceArgs whole
idle = record {
  now = 40;
  frontier_cap = none;
  max_requests = some 0;
  slice_entries = 10;
  concurrency = 1;
  curate_each_slice = true;
  curation = curation;
  crawl = λ plan entries st. (ok [], st);
}

my_scan_found : get_scan 5 store.scans ≡ some my_scan
unfolding get_scan
my_scan_found = refl

run_scan-Ended_example : Ended 5 (run_scan (λ left. idle) curation 3 5 store)
run_scan-Ended_example = run_scan-Ended (λ left. idle) curation 3 5 store

start_scan-Started_example : Started 5 my_scan store (start_scan 40 none 5 store)
start_scan-Started_example = start_scan-Started 40 none 5 store my_scan my_scan_found

poll_scans_again_example :
    (poll_scans 130 20 (poll_scans 100 20 store).1).0
    ≡ map (λ (s : Scan). s.id) (where_rows (unattended 110) store.scans)
poll_scans_again_example = poll_scans_again 100 130 20 store

-- The queued scan is dispatched by both polls.
dispatched_twice :
    ((poll_scans 100 20 store).0 ≡ 5 ∷ [])
    × ((poll_scans 130 20 (poll_scans 100 20 store).1).0 ≡ 5 ∷ [])
unfolding poll_scans
dispatched_twice = (refl, refl)

whole-IsOrder : IsOrder whole
whole-IsOrder = record {
  asym = λ a b h. ground (arith, h);
  trans = λ a b c h k. ground (arith, h, k);
}

curated_now :
    (curate curation 5 store).0
    ≡ ok (
      (compute_recommendations whole (request_of curation 1 my_scan []) library).0,
      (compute_recommendations whole (request_of curation 1 my_scan []) library).1,
    )
unfolding curate
curated_now = refl

feed_rows-curate_example :
    map
      (λ (r : Recommendation whole). r.item)
      (feed_rows whole (λ c. c) (λ n. n) unfiltered Sort.score (some 5) (curate curation 5 store).1)
    ≡ (compute_recommendations whole (request_of curation 1 my_scan []) library).0
feed_rows-curate_example =
    feed_rows-curate whole whole-IsOrder (λ c. c) (λ n. n) curation 5 store
      (compute_recommendations whole (request_of curation 1 my_scan []) library).0
      (compute_recommendations whole (request_of curation 1 my_scan []) library).1 curated_now
