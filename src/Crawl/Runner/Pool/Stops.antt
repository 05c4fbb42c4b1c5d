-- ===== src/Crawl/Runner/Pool/Stops.antt =====
-- How `run_until_empty` (backend/app/crawl/runner.py) winds down when a worker finds the budget spent.
use bandcamp_curate.Base.{ℕ, ◌+◌, ◌≤◌, ◌≡◌, refl, true, List, [], ◌∷◌, length, length-snoc, arith}
use bandcamp_curate.Crawl.Runner.{nothing, processed, reraised, unclosed, cancelled}
use bandcamp_curate.Crawl.Runner.Slices.{Bounds}
use bandcamp_curate.Crawl.Runner.Pool.{
  Phase, at_top, reserved, crawling, returned, Pool, Turn, begins, asks, ends, elsewhere, phase_of,
  begin_round, ask_budget, end_round, turn, run_turns,
}
use bandcamp_curate.Crawl.Runner.Pool.Bounded.{busy, busy-set_phase}

-- A pool that has stopped: no slot is taken, and the entries that are still to come are those of
-- the workers that held a slot.
pub record IsWindingDown {W : Type 0} (left most : ℕ) (s : Pool W) : Type 0 where
  pub stopped : s.stop ≡ true
  pub kept : s.remaining ≡ left
  pub spent : length s.outcomes + busy s.workers ≤ most

module _ {W : Type 0} (left most : ℕ) (b : Bounds) where
  turn-IsWindingDown :
      (w : ℕ) (p : Phase) (t : Turn W) (s : Pool W)
      → phase_of w s.workers ≡ p
      → IsWindingDown left most s
      → IsWindingDown left most (turn b w p t s)
  unfolding turn begin_round ask_budget end_round
  turn-IsWindingDown w at_top (begins now) s at v =
      ground (arith, v.stopped, v.kept, v.spent, busy-set_phase w returned at_top s.workers at)
  turn-IsWindingDown w reserved asks s at v = ground (
    arith,
    v.stopped,
    v.kept,
    v.spent,
    busy-set_phase w returned reserved s.workers at,
    busy-set_phase w crawling reserved s.workers at,
  )
  turn-IsWindingDown w crawling (ends nothing db) s at v =
      ground (arith, v.stopped, v.kept, v.spent, busy-set_phase w returned crawling s.workers at)
  turn-IsWindingDown w crawling (ends (processed o) db) s at v = ground (
    arith,
    v.stopped,
    v.kept,
    v.spent,
    length-snoc s.outcomes o,
    busy-set_phase w at_top crawling s.workers at,
  )
  turn-IsWindingDown w crawling (ends (reraised note) db) s at v =
      ground (arith, v.stopped, v.kept, v.spent, busy-set_phase w at_top crawling s.workers at)
  turn-IsWindingDown w crawling (ends (unclosed note) db) s at v =
      ground (arith, v.stopped, v.kept, v.spent, busy-set_phase w at_top crawling s.workers at)
  turn-IsWindingDown w crawling (ends cancelled db) s at v =
      ground (arith, v.stopped, v.kept, v.spent, busy-set_phase w returned crawling s.workers at)
  turn-IsWindingDown w p (elsewhere db) s at v = ground (arith, v.stopped, v.kept, v.spent)
  turn-IsWindingDown w at_top asks s at v = v
  turn-IsWindingDown w at_top (ends p db) s at v = v
  turn-IsWindingDown w reserved (begins now) s at v = v
  turn-IsWindingDown w reserved (ends p db) s at v = v
  turn-IsWindingDown w crawling (begins now) s at v = v
  turn-IsWindingDown w crawling asks s at v = v
  turn-IsWindingDown w returned (begins now) s at v = v
  turn-IsWindingDown w returned asks s at v = v
  turn-IsWindingDown w returned (ends p db) s at v = v

  run_turns-IsWindingDown :
      (turns : List (ℕ × Turn W)) (s : Pool W)
      → IsWindingDown left most s
      → IsWindingDown left most (run_turns b turns s)
  unfolding run_turns
  run_turns-IsWindingDown [] s v = v
  run_turns-IsWindingDown ((w, t) ∷ turns) s v =
      run_turns-IsWindingDown turns (turn b w (phase_of w s.workers) t s)
        (turn-IsWindingDown w (phase_of w s.workers) t s refl v)

-- Once a worker has found the budget spent, no worker reserves a slot any more, whatever turns
-- follow, and the outcomes that are still added are no more than the workers that held a slot.
pub run_turns_stopped :
    {W : Type 0} (b : Bounds) (turns : List (ℕ × Turn W)) (s : Pool W)
    → s.stop ≡ true
    → ((run_turns b turns s).remaining ≡ s.remaining)
      × (length (run_turns b turns s).outcomes + busy (run_turns b turns s).workers
          ≤ length s.outcomes + busy s.workers)
run_turns_stopped b turns s stopped =
    let v =
      run_turns-IsWindingDown s.remaining (length s.outcomes + busy s.workers) b turns s
        (record { stopped = stopped; kept = refl; spent = omega arith }) in
    (v.kept, v.spent)
