-- ===== src/Crawl/Database.antt =====
-- The database as the crawl sees it, and what running an entry comes to
-- (backend/app/crawl/service.py, backend/app/crawl/runner.py).
use bandcamp_curate.Base.{
  ℕ, Bool, Option, List, Text, ◌&&◌, count_rows, opt_is, leb, false, none, some,
}
use bandcamp_curate.Frontier.Tables.{CrawlKind, Cursor, Table}

-- The columns of a `provider_usage` row that the budget reads.
pub record Usage : Type 0 where
  pub is_ok : Bool
  pub scan_id : Option ℕ

-- The frontier, the usage log and the rest of the tables, `W`.
pub record Db (W : Type 0) : Type 0 where
  pub frontier : Table
  pub usage : List Usage
  pub graph : W

-- `CrawlOutcome`
pub record CrawlOutcome : Type 0 where
  pub url : Text
  pub kind : CrawlKind
  pub items : ℕ
  pub tracks : ℕ
  pub supporters : ℕ
  pub enqueued : ℕ
  pub skipped_followed : ℕ
  pub skipped_self : ℕ
  pub reused : Bool
  pub fan_id : Option ℕ
  pub cursor : Option Cursor

-- How one attempt at an entry ends: it returns, runs out of `entry_seconds`, loses a lock race
-- (a DBAPIError with a retryable SQLSTATE), or raises anything else. The texts are the messages.
pub data Attempt : Type 0 where
  finished : CrawlOutcome → Attempt
  timed_out : Text → Attempt
  conflict : Text → Attempt
  failed : Text → Attempt
  -- the job is cancelled: no `except` clause of the loop catches it
  interrupted : Attempt
  -- however the attempt ended, the write that closes or puts back the entry raises
  write_failed : Text → Attempt

-- `requests_used_by_scan`
unfoldable pub requests_used_by_scan : ℕ → List Usage → ℕ
requests_used_by_scan scan_id = count_rows (λ u. u.is_ok && opt_is u.scan_id scan_id)

-- `scan_budget_exhausted`
unfoldable pub scan_budget_exhausted : ℕ → Option ℕ → List Usage → Bool
unfolding requests_used_by_scan
scan_budget_exhausted scan_id none usage = false
scan_budget_exhausted scan_id (some limit) usage = leb limit (requests_used_by_scan scan_id usage)
