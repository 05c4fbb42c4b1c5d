-- ===== src/Crawl/Runner/Slices.antt =====
-- The worker of `run_until_empty` of backend/app/crawl/runner.py, and timeouts over several visits.
use bandcamp_curate.Base.{
  decimal, codes, ◌++◌, ℕ, zero, suc, ◌+◌, ◌≤◌, ◌<◌, ◌≡◌, refl, ◌∙◌, inl, inr, Bool, true, false,
  Option, none, some, List, [], ◌∷◌, arith, leb, ==_iff, if◌then◌else◌, Text, Bool-cases, length,
}
use bandcamp_curate.Frontier.Tables.{pending, error, Entry, Table, KeepsKey, get_by_id, update_row}
use bandcamp_curate.Frontier.Marks.{mark_error, mark_retryable, on_retryable, on_error}
use bandcamp_curate.Frontier.Rows.{get_by_id-update_row}
use bandcamp_curate.Frontier.Interleaving.{on_retryable-KeepsKey, on_error-KeepsKey}
use bandcamp_curate.Crawl.Database.{Db, CrawlOutcome, scan_budget_exhausted}
use bandcamp_curate.Crawl.Runner.{
  Processed, nothing, processed, reraised, unclosed, cancelled, with_timeouts, on_timeout,
  max_entry_timeouts,
}

-- `deadline is not None and time.monotonic() >= deadline`
unfoldable pub past : Option ℕ → ℕ → Bool
past none now = false
past (some deadline) now = leb deadline now

-- The bounds of `run_until_empty`.
pub record Bounds : Type 0 where
  pub scan_id : ℕ
  pub max_requests : Option ℕ
  pub deadline : Option ℕ

module _ {W : Type 0} (one : ℕ → Db W → Processed × Db W) (clock : ℕ → ℕ) where
  -- What the worker does with the result of `process_one`; a cancellation ends the run.
  unfoldable pub keep_going :
      Processed × Db W → (Db W → List CrawlOutcome × Db W) → List CrawlOutcome × Db W
  keep_going (nothing, db) next = ([], db)
  keep_going (processed o, db) next = let (os, db') = next db in (o ∷ os, db')
  keep_going (reraised note, db) next = next db
  keep_going (unclosed note, db) next = next db
  keep_going (cancelled, db) next = ([], db)

  -- The loop of one worker with `remaining` slots: `one` is `process_one` in the round with that
  -- many slots left, and `clock` the time at which the round reads the deadline.
  unfoldable pub worker : Bounds → ℕ → Db W → List CrawlOutcome × Db W
  unfolding past keep_going
  worker b zero db = ([], db)
  worker b (suc remaining) db =
      let rest = keep_going (one remaining db) (worker b remaining) in
      if past b.deadline (clock remaining)
      then ([], db)
      else if scan_budget_exhausted b.scan_id b.max_requests db.usage
      then ([], db)
      else rest

  keep_going-length :
      (r : Processed × Db W) (next : Db W → List CrawlOutcome × Db W) (n : ℕ)
      → ((db : Db W) → length (next db).0 ≤ n)
      → length (keep_going r next).0 ≤ suc n
  unfolding keep_going
  keep_going-length (nothing, db) next n h = omega arith
  keep_going-length (processed o, db) next n h = omega (arith, h db)
  keep_going-length (reraised note, db) next n h = omega (arith, h db)
  keep_going-length (unclosed note, db) next n h = omega (arith, h db)
  keep_going-length (cancelled, db) next n h = omega arith

  worker-length-le :
      (b : Bounds) (remaining : ℕ) (db : Db W) → length (worker b remaining db).0 ≤ remaining
  unfolding worker
  worker-length-le b zero db = omega arith
  worker-length-le b (suc remaining) db = ground (
    arith,
    keep_going-length (one remaining db) (worker b remaining) remaining
        (worker-length-le b remaining),
  )

  keep_going-keeps :
      (P : Db W → Type 0) (r : Processed × Db W) (next : Db W → List CrawlOutcome × Db W)
      → P r.1
      → ((d : Db W) → P d → P (next d).1)
      → P (keep_going r next).1
  unfolding keep_going
  keep_going-keeps P (nothing, db) next p h = p
  keep_going-keeps P (processed o, db) next p h = h db p
  keep_going-keeps P (reraised note, db) next p h = h db p
  keep_going-keeps P (unclosed note, db) next p h = h db p
  keep_going-keeps P (cancelled, db) next p h = p

  worker-keeps :
      (P : Db W → Type 0) (b : Bounds) (remaining : ℕ) (db : Db W)
      → ((i : ℕ) (d : Db W)
          → scan_budget_exhausted b.scan_id b.max_requests d.usage ≡ false
          → P d
          → P (one i d).1)
      → P db
      → P (worker b remaining db).1
  unfolding worker
  worker-keeps P b zero db keep p = p
  worker-keeps P b (suc remaining) db keep p =
      elim (Bool-cases (past b.deadline (clock remaining))) [
        | inl late ↦ rw late p
        | inr early ↦ elim (Bool-cases (scan_budget_exhausted b.scan_id b.max_requests db.usage)) [
          | inl spent ↦ rw (early, spent) p
          | inr funds ↦
              rw (early, funds)
                (keep_going-keeps P (one remaining db) (worker b remaining)
                  (keep remaining db funds p) (λ d q. worker-keeps P b remaining d keep q))
        ]
      ]

  worker_spent :
      (b : Bounds) (remaining : ℕ) (db : Db W)
      → scan_budget_exhausted b.scan_id b.max_requests db.usage ≡ true
      → worker b remaining db ≡ ([], db)
  unfolding worker
  worker_spent b zero db h = refl
  worker_spent b (suc remaining) db h = ground (arith, h)

  -- A worker processes at most `max_iterations` entries, and whatever property of the database each
  -- call of `process_one` keeps while the scan has budget left, the worker keeps; where the budget
  -- is spent before it starts, it changes nothing.
  pub worker_bounds :
      (P : Db W → Type 0) (b : Bounds) (max_iterations : ℕ) (db : Db W)
      → ((i : ℕ) (d : Db W)
          → scan_budget_exhausted b.scan_id b.max_requests d.usage ≡ false
          → P d
          → P (one i d).1)
      → P db
      → (length (worker b max_iterations db).0 ≤ max_iterations)
        × P (worker b max_iterations db).1
        × ((scan_budget_exhausted b.scan_id b.max_requests db.usage ≡ true)
            → worker b max_iterations db ≡ ([], db))
  worker_bounds P b n db keep p =
      (worker-length-le b n db, worker-keeps P b n db keep p, worker_spent b n db)

with_timeouts-KeepsKey : (n : ℕ) → KeepsKey (with_timeouts n)
unfolding with_timeouts
with_timeouts-KeepsKey n = record {
  id_kept = λ e. refl;
  scan_kept = λ e. refl;
  url_kept = λ e. refl;
  kind_kept = λ e. refl;
}

get_updated :
    (f : Entry → Entry) (k : KeepsKey f) (id : ℕ) (rows : List Entry) {e : Entry}
    → get_by_id id rows ≡ some e
    → get_by_id id (update_row id f rows) ≡ some (f e)
get_updated f k id rows h = get_by_id-update_row f k id id rows ∙ ground (arith, h, ==_iff id id)

-- Timeouts are counted one at a time, and the bookmark is kept. An entry below the limit goes back
-- on the queue; the timeout that reaches the limit fails it.
pub on_timeout_counts :
    (now id : ℕ) (note : Text) (t : Table) (e : Entry)
    → get_by_id id t.rows ≡ some e
    → (e' : Entry) × (get_by_id id (on_timeout now id note (get_by_id id t.rows) t).rows ≡ some e')
      × (e'.timeout_count ≡ e.timeout_count + 1)
      × (e'.cursor ≡ e.cursor)
      × (e.timeout_count + 1 < max_entry_timeouts → e'.status ≡ pending)
      × (max_entry_timeouts ≤ e.timeout_count + 1 → e'.status ≡ error)
unfolding on_timeout mark_error mark_retryable
on_timeout_counts now id note t e at =
    let n = e.timeout_count + 1 in
    let set = get_updated (with_timeouts n) (with_timeouts-KeepsKey n) id t.rows at in
    elim (Bool-cases (leb max_entry_timeouts n)) [
      | inl out ↦
          let note' = note ++ (codes " x" ++ decimal n) in
          (
            on_error now note' (with_timeouts n e),
            rw (at, on_timeout)
                (rw out (get_updated (on_error now note') (on_error-KeepsKey now note') id _ set)),
            refl,
            refl,
            λ lt. absurd (ground (arith, out, lt)),
            λ le. refl,
          )
      | inr more ↦ (
        on_retryable now note (with_timeouts n e),
        rw (at, on_timeout)
            (rw more
              (get_updated (on_retryable now note) (on_retryable-KeepsKey now note) id _ set)),
        refl,
        refl,
        λ lt. refl,
        λ le. absurd (ground (arith, more, le)),
      )
    ]
