-- ===== src/Frontier/Marks.antt =====
-- The operations of backend/app/crawl/frontier.py that close an entry out, and its other queries.
use bandcamp_curate.Base.{
  ℕ, Bool, true, Option, none, some, List, ◌==◌, ◌&&◌, not, Text, is_some, same_text, take, find,
  count_rows,
}
use bandcamp_curate.Frontier.Tables.{
  CrawlKind, pending, done, error, Cursor, Entry, Table, same_kind, same_status, update_row,
}

unfoldable pub on_done : ℕ → Entry → Entry
on_done now e = record e {
  status = done;
  last_error = none;
  cursor = none;
  timeout_count = 0;
  updated_at = now;
}

unfoldable pub on_partial : ℕ → Cursor → Entry → Entry
on_partial now cursor e = record e {
  status = pending;
  last_error = none;
  cursor = some cursor;
  timeout_count = 0;
  updated_at = now;
}

unfoldable pub on_retryable : ℕ → Text → Entry → Entry
on_retryable now note e = record e {
  status = pending;
  last_error = some (take 2000 note);
  updated_at = now;
}

unfoldable pub on_error : ℕ → Text → Entry → Entry
on_error now note e = record e {
  status = error;
  last_error = some (take 2000 note);
  updated_at = now;
}

-- The entry is an object of the session; its changes are flushed to the row of its id.
abbrev write : ℕ → (Entry → Entry) → Table → Table
write entry_id f t = record t { rows = update_row entry_id f t.rows }

unfoldable pub mark_done : ℕ → ℕ → Table → Table
unfolding on_done
mark_done now entry_id t = write entry_id (on_done now) t

unfoldable pub mark_partial : ℕ → ℕ → Cursor → Table → Table
unfolding on_partial
mark_partial now entry_id cursor t = write entry_id (on_partial now cursor) t

unfoldable pub mark_retryable : ℕ → ℕ → Text → Table → Table
unfolding on_retryable
mark_retryable now entry_id note t = write entry_id (on_retryable now note) t

unfoldable pub mark_error : ℕ → ℕ → Text → Table → Table
unfolding on_error
mark_error now entry_id note t = write entry_id (on_error now note) t

-- `if kind is not None: … kind = …`
abbrev kind_is : Option CrawlKind → CrawlKind → Bool
kind_is none k = true
kind_is (some j) k = same_kind k j

unfoldable pub pending_count : Option CrawlKind → ℕ → List Entry → ℕ
pending_count kind scan_id =
    count_rows λ e. e.scan_id == scan_id && (same_status e.status pending && kind_is kind e.kind)

unfoldable pub completed_elsewhere : Text → CrawlKind → ℕ → List Entry → Bool
completed_elsewhere url kind scan_id rows = is_some (
    find
      (λ e.
        same_text e.url url
        && (same_kind e.kind kind && (not (e.scan_id == scan_id) && same_status e.status done)))
      rows)
