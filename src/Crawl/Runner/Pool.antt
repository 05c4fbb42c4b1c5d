-- ===== src/Crawl/Runner/Pool.antt =====
-- `run_until_empty` of backend/app/crawl/runner.py with several workers. A worker runs from one
-- `await` to the next without another in between, so a run is a sequence of such turns, in any
-- order. What `process_one` comes to, and what is committed by anybody in between, is part of the
-- sequence.
pub mod Bounded
pub mod Stops
use bandcamp_curate.Base.{
  ℕ, zero, suc, ◌-◌, Bool, true, false, ◌||◌, Option, none, some, List, [], ◌∷◌, ◌++◌, ◌==◌, leb,
  if◌then◌else◌,
}
use bandcamp_curate.Crawl.Database.{Db, CrawlOutcome, scan_budget_exhausted}
use bandcamp_curate.Crawl.Runner.{Processed, nothing, processed, reraised, unclosed, cancelled}
use bandcamp_curate.Crawl.Runner.Slices.{Bounds, past}

-- Where a worker is: at the top of its loop; with a slot, before the answer on the budget; in
-- `process_one`; or returned.
pub data Phase : Type 0 where
  at_top reserved crawling returned : Phase

-- The variables that the workers share, the database, and the workers.
pub record Pool (W : Type 0) : Type 0 where
  pub remaining : ℕ
  pub stop : Bool
  pub outcomes : List CrawlOutcome
  pub db : Db W
  pub workers : List Phase

-- A turn: the top of the loop at a time; the answer of `scan_budget_exhausted`; the end of
-- `process_one`, with the database that it leaves; or commits of others.
pub data Turn (W : Type 0) : Type 0 where
  begins : ℕ → Turn W
  asks : Turn W
  ends : Processed → Db W → Turn W
  elsewhere : Db W → Turn W

-- The worker of a number, and its next phase.
unfoldable pub phase_of : ℕ → List Phase → Phase
phase_of n [] = returned
phase_of zero (p ∷ workers) = p
phase_of (suc n) (p ∷ workers) = phase_of n workers

unfoldable pub set_phase : ℕ → Phase → List Phase → List Phase
set_phase n p [] = []
set_phase zero p (q ∷ workers) = p ∷ workers
set_phase (suc n) p (q ∷ workers) = q ∷ set_phase n p workers

unfoldable pub idle_workers : ℕ → List Phase
idle_workers zero = []
idle_workers (suc n) = at_top ∷ idle_workers n

module _ {W : Type 0} where
  abbrev pub moved : ℕ → Phase → Pool W → Pool W
  moved w p s = record s { workers = set_phase w p s.workers }

  -- The guards at the top, and the slot that is reserved before anything is awaited.
  unfoldable pub begin_round : Bounds → ℕ → ℕ → Pool W → Pool W
  unfolding past set_phase
  begin_round b w now s =
      if s.stop || (leb s.remaining 0 || past b.deadline now)
      then moved w returned s
      else moved w reserved (record s { remaining = s.remaining - 1 })

  unfoldable pub ask_budget : Bounds → ℕ → Pool W → Pool W
  unfolding set_phase scan_budget_exhausted
  ask_budget b w s =
      if scan_budget_exhausted b.scan_id b.max_requests s.db.usage
      then moved w returned (record s { stop = true })
      else moved w crawling s

  unfoldable pub end_round : ℕ → Processed → Pool W → Pool W
  unfolding set_phase
  end_round w nothing s = moved w returned s
  end_round w (processed o) s = moved w at_top (record s { outcomes = s.outcomes ++ o ∷ [] })
  end_round w (reraised note) s = moved w at_top s
  end_round w (unclosed note) s = moved w at_top s
  end_round w cancelled s = moved w returned s

  -- A turn of a worker in a phase; a turn that the phase does not have is none.
  unfoldable pub turn : Bounds → ℕ → Phase → Turn W → Pool W → Pool W
  unfolding begin_round ask_budget end_round
  turn b w at_top (begins now) s = begin_round b w now s
  turn b w reserved asks s = ask_budget b w s
  turn b w crawling (ends p db) s = end_round w p (record s { db = db })
  turn b w phase (elsewhere db) s = record s { db = db }
  turn b w _ _ s = s

  unfoldable pub run_turns : Bounds → List (ℕ × Turn W) → Pool W → Pool W
  unfolding turn phase_of
  run_turns b [] s = s
  run_turns b ((w, t) ∷ turns) s = run_turns b turns (turn b w (phase_of w s.workers) t s)

  -- `concurrency` workers, or one.
  unfoldable pub start : ℕ → ℕ → Db W → Pool W
  unfolding idle_workers
  start concurrency max_iterations db = record {
    remaining = max_iterations;
    stop = false;
    outcomes = [];
    db = db;
    workers = idle_workers (if leb concurrency 1 then 1 else concurrency);
  }

  -- `run_until_empty`, where the workers take these turns.
  unfoldable pub run_until_empty :
      Bounds → ℕ → ℕ → List (ℕ × Turn W) → Db W → List CrawlOutcome × Db W
  unfolding run_turns start
  run_until_empty b concurrency max_iterations turns db =
      let s = run_turns b turns (start concurrency max_iterations db) in (s.outcomes, s.db)
