-- ===== src/Frontier/Enqueue.antt =====
-- `size` and `enqueue` of backend/app/crawl/frontier.py: add a (scan_id, url, kind) if it is absent.
use bandcamp_curate.Base.{
  ℕ, suc, Bool, Option, none, some, List, [], ◌∷◌, ◌++◌, ◌==◌, ◌||◌, true, false, not, leb,
  if◌then◌else◌, Text, is_some, find, count_rows, contains, Result, ok, raise, integrity,
}
use bandcamp_curate.Frontier.Tables.{CrawlKind, pending, Entry, Table, has_key}

-- The arguments of `enqueue` that describe the row.
pub record Job : Type 0 where
  pub scan_id : ℕ
  pub url : Text
  pub kind : CrawlKind
  pub priority : ℕ
  pub depth : ℕ

-- `SELECT count(*) … WHERE scan_id = …`
unfoldable pub size : ℕ → List Entry → ℕ
size scan_id = count_rows (λ e. e.scan_id == scan_id)

-- The row that `session.add` makes, with the column defaults.
unfoldable pub new_row : ℕ → ℕ → Job → Entry
new_row now id job = record {
  id = id;
  scan_id = job.scan_id;
  url = job.url;
  kind = job.kind;
  status = pending;
  attempts = 0;
  priority = job.priority;
  depth = job.depth;
  last_error = none;
  timeout_count = 0;
  cursor = none;
  updated_at = now;
}

-- The `SELECT` on the unique key.
unfoldable pub lookup_job : Job → List Entry → Option Entry
lookup_job job = find (has_key job.scan_id job.url job.kind)

-- The flush in the savepoint. `none` is the IntegrityError: the unique key is taken, or the
-- foreign key points at no scan. A failed insert leaves the rows as they were.
unfoldable pub insert : ℕ → Table → Job → Option Table
unfolding lookup_job new_row
insert now t job =
    if is_some (lookup_job job t.rows) || not (contains job.scan_id t.scans)
    then none
    else some
        (record t { rows = t.rows ++ new_row now t.next_id job ∷ []; next_id = suc t.next_id })

-- `max_frontier_size`: the argument, or the setting where it is not given.
unfoldable pub resolve_cap : Option ℕ → Option ℕ → Option ℕ
resolve_cap none setting = setting
resolve_cap (some m) setting = some m

-- The test of the cap, on the rows that the count reads.
unfoldable pub at_cap : Option ℕ → ℕ → List Entry → Bool
at_cap none scan_id rows = false
at_cap (some m) scan_id rows = leb m (size scan_id rows)

-- What the savepoint's outcome and the second `SELECT` make of an insert.
unfoldable pub settle : Option Table → Option Entry → Table → Result Bool × Table
settle (some t') raced t = (ok true, t')
settle none (some _) t = (ok false, t)
settle none none t = (raise integrity, t)

-- `enqueue`, where the check and the count read `seen`, and the insert meets the table `t`. Other
-- crawlers may have added rows in between.
unfoldable pub enqueue_raced :
    ℕ → Option ℕ → Option ℕ → List Entry → Table → Job → Result Bool × Table
unfolding lookup_job resolve_cap at_cap settle
enqueue_raced now setting override seen t job =
    if is_some (lookup_job job seen)
    then (ok false, t)
    else if at_cap (resolve_cap override setting) job.scan_id seen
    then (ok false, t)
    else settle (insert now t job) (lookup_job job t.rows) t

-- `enqueue` with no crawler in between, as every call site has it: no override of the cap.
unfoldable pub enqueue : ℕ → Option ℕ → Table → Job → Result Bool × Table
unfolding enqueue_raced
enqueue now setting t job = enqueue_raced now setting none t.rows t job
