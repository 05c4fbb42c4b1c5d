-- ===== src/Tests/Visits.antt =====
-- Visits of one entry, and the theorems on backend/app/crawl/runner.py for them.
use bandcamp_curate.Base.{ℕ, ◌≡◌, refl, List, none, true, some, [], ◌∷◌, codes}
use bandcamp_curate.Crawl.Database.{Db, conflict}
use bandcamp_curate.Frontier.Claim.{alone}
use bandcamp_curate.Crawl.Runner.{ClaimArgs, process_one}
use bandcamp_curate.Crawl.Runner.Slices.{Bounds}
use bandcamp_curate.Crawl.Runner.Pool.{Turn, begins, asks, run_turns, start}
use bandcamp_curate.Crawl.Runner.Settles.{IsClosed, process_one-IsSettled}
use bandcamp_curate.Tests.Queue.{two_entries, fan_claimed, claimed_fan}

abbrev database : Db ℕ
database = record {
  frontier = two_entries;
  usage = record { is_ok = true; scan_id = some 5 } ∷ [];
  graph = 0;
}

abbrev claiming : ClaimArgs
claiming = record { now = 9; stale_after = 3; scan_id = 5 }

-- Every attempt loses a lock race.
process_one-IsSettled_example :
    IsClosed 2 (process_one (λ n e db. (conflict (codes "40P01"), db)) claiming alone database)
process_one-IsSettled_example =
    process_one-IsSettled (λ n e db. (conflict (codes "40P01"), db)) claiming alone database
      fan_claimed claimed_fan

abbrev bounds : Bounds
bounds = record { scan_id = 5; max_requests = some 1; deadline = none }

-- Two workers: the first takes a slot and finds the budget spent, the second takes one in between.
abbrev turns : List (ℕ × Turn ℕ)
turns = (0, begins 1) ∷ (1, begins 1) ∷ (0, asks) ∷ (1, asks) ∷ (0, begins 2) ∷ []

takes_two : (run_turns bounds turns (start 2 9 database)).remaining ≡ 7
unfolding run_turns start
takes_two = refl
