-- ===== src/Crawl/Runner/Pool/Bounded.antt =====
-- The slots of `run_until_empty` (backend/app/crawl/runner.py) with several workers.
use bandcamp_curate.Base.{
  ℕ, zero, suc, ◌+◌, ◌≤◌, ◌≡◌, Bool, true, false, List, [], ◌∷◌, if◌then◌else◌, length, count_rows,
  arith,
}
use bandcamp_curate.Crawl.Runner.Pool.{
  Phase, at_top, reserved, crawling, returned, Pool, phase_of, set_phase,
}

-- A worker that holds a slot.
abbrev pub is_busy : Phase → Bool
is_busy at_top = false
is_busy reserved = true
is_busy crawling = true
is_busy returned = false

abbrev pub busy : List Phase → ℕ
busy workers = count_rows is_busy workers

abbrev weight : Phase → ℕ
weight p = if is_busy p then 1 else 0

pub busy-set_phase :
    (w : ℕ) (p q : Phase) (workers : List Phase)
    → phase_of w workers ≡ q
    → busy (set_phase w p workers) + weight q ≤ busy workers + weight p
unfolding phase_of set_phase
busy-set_phase zero p q [] h = ground (arith, h)
busy-set_phase (suc w) p q [] h = ground (arith, h)
busy-set_phase zero p q (r ∷ workers) h = ground (arith, h)
busy-set_phase (suc w) p q (r ∷ workers) h = ground (arith, busy-set_phase w p q workers h)

-- What every turn keeps: the outcomes, the slots that workers hold and the slots that are left are
-- no more than there were at the start, and no worker is added.
pub record IsBounded {W : Type 0} (slots crew : ℕ) (s : Pool W) : Type 0 where
  pub spent : length s.outcomes + busy s.workers + s.remaining ≤ slots
  pub crewed : length s.workers ≡ crew
