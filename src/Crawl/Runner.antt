-- ===== src/Crawl/Runner.antt =====
-- `process_one` and `run_until_empty` of backend/app/crawl/runner.py. Running a claimed entry
-- (`process_entry`) is the argument `work`: from the number of the attempt, the entry and the
-- database it gives how the attempt ends and what is committed by then. A rollback leaves that.
pub mod Settles
pub mod Slices
pub mod Pool
use bandcamp_curate.Base.{
  codes, decimal, ◌++◌, ℕ, zero, suc, ◌+◌, ◌-◌, Bool, true, false, Option, none, some, List, [],
  ◌∷◌, leb, ltb, if◌then◌else◌, Text,
}
use bandcamp_curate.Frontier.Tables.{Cursor, Entry, Table, get_by_id, update_row}
use bandcamp_curate.Frontier.Claim.{Others, claim_next}
use bandcamp_curate.Frontier.Marks.{mark_done, mark_partial, mark_retryable, mark_error}
use bandcamp_curate.Crawl.Database.{
  Db, CrawlOutcome, Attempt, finished, timed_out, conflict, failed, interrupted, write_failed,
  Usage, scan_budget_exhausted,
}

-- `_DB_RETRIES`
abbrev pub db_retries : ℕ
db_retries = 3

-- `MAX_ENTRY_TIMEOUTS`
abbrev pub max_entry_timeouts : ℕ
max_entry_timeouts = 3

-- What `process_one` returns or raises: `None`, an outcome, the exception of the entry, that of the
-- write that was to close the entry, or the cancellation of the job.
pub data Processed : Type 0 where
  nothing : Processed
  processed : CrawlOutcome → Processed
  reraised : Text → Processed
  unclosed : Text → Processed
  cancelled : Processed

-- The claim's arguments: the time, `stale_after` and the scan.
pub record ClaimArgs : Type 0 where
  pub now : ℕ
  pub stale_after : ℕ
  pub scan_id : ℕ

-- `reloaded.timeout_count = timeout_count`
unfoldable pub with_timeouts : ℕ → Entry → Entry
with_timeouts n e = record e { timeout_count = n }

unfoldable pub set_timeouts : ℕ → ℕ → Table → Table
unfolding with_timeouts
set_timeouts entry_id n t = record t { rows = update_row entry_id (with_timeouts n) t.rows }

-- The `except TimeoutError` branch, for the reloaded row.
unfoldable pub on_timeout : ℕ → ℕ → Text → Option Entry → Table → Table
unfolding set_timeouts
on_timeout now entry_id note none t = t
on_timeout now entry_id note (some reloaded) t =
    let count = reloaded.timeout_count + 1 in
    let t' = set_timeouts entry_id count t in
    if leb max_entry_timeouts count
    then mark_error now entry_id (note ++ (codes " x" ++ decimal count)) t'
    else mark_retryable now entry_id note t'

-- The end of the `except Exception` branch, for the reloaded row.
unfoldable pub on_failure : ℕ → ℕ → Text → Option Entry → Table → Table
on_failure now entry_id note none t = t
on_failure now entry_id note (some reloaded) t = mark_error now entry_id note t

-- What follows the loop: park the bookmark, or close the entry.
unfoldable pub close_entry : ℕ → ℕ → Option Cursor → Table → Table
close_entry now entry_id (some cursor) t = mark_partial now entry_id cursor t
close_entry now entry_id none t = mark_done now entry_id t

-- The branches of the loop that leave it, with what follows it. A lock race leaves it where no
-- attempt is left. A cancellation, and a write that closes the entry and fails, pass through: what was
-- committed by then is left.
unfoldable pub conclude : {W : Type 0} → ℕ → ℕ → Attempt → Db W → Processed × Db W
unfolding on_timeout on_failure close_entry
conclude now entry_id (finished o) db =
    (processed o, record db { frontier = close_entry now entry_id o.cursor db.frontier })
conclude now entry_id (timed_out note) db = (
  nothing,
  record db {
    frontier = on_timeout now entry_id note (get_by_id entry_id db.frontier.rows) db.frontier;
  },
)
conclude now entry_id (conflict note) db = (
  reraised note,
  record db {
    frontier = on_failure now entry_id note (get_by_id entry_id db.frontier.rows) db.frontier;
  },
)
conclude now entry_id (failed note) db = (
  reraised note,
  record db {
    frontier = on_failure now entry_id note (get_by_id entry_id db.frontier.rows) db.frontier;
  },
)
conclude now entry_id interrupted db = (cancelled, db)
conclude now entry_id (write_failed note) db = (unclosed note, db)

-- Where another attempt follows a lock race, the entry is read again.
unfoldable pub again_with :
    {W : Type 0} → Option Entry → Db W → (Entry → Db W → Processed × Db W) → Processed × Db W
again_with none db next = (nothing, db)
again_with (some e) db next = next e db

-- The end of an attempt that is not the last: a lock race is followed by `next`.
unfoldable pub follow :
    {W : Type 0} → ℕ → ℕ → Attempt → Db W → (Entry → Db W → Processed × Db W) → Processed × Db W
unfolding conclude again_with
follow now entry_id (conflict note) db next =
    again_with (get_by_id entry_id db.frontier.rows) db next
follow now entry_id end db next = conclude now entry_id end db

module _ {W : Type 0} (work : ℕ → Entry → Db W → Attempt × Db W) where
  -- The loop of `process_one` from `attempt` on, with `left` attempts after it.
  unfoldable pub attempts : ℕ → ℕ → ℕ → ℕ → Entry → Db W → Processed × Db W
  unfolding follow
  attempts now entry_id zero attempt entry db =
      let (end, db') = work attempt entry db in conclude now entry_id end db'
  attempts now entry_id (suc left) attempt entry db =
      let (end, db') = work attempt entry db in
      follow now entry_id end db' (attempts now entry_id left (suc attempt))

  -- `process_one`; `others` are the other crawlers during the claim.
  unfoldable pub process_one : ClaimArgs → Others → Db W → Processed × Db W
  unfolding attempts
  process_one c others db =
      let (entry, t) = claim_next c.now c.stale_after c.scan_id [] others db.frontier in
      let db' = record db { frontier = t } in
      elim entry [ none ↦ (nothing, db') | some e ↦ attempts c.now e.id (db_retries - 1) 1 e db' ]
