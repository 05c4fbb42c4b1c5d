-- ===== src/Crawl/Fanout/Rows.antt =====
-- What an enqueue of a child (backend/app/crawl/service.py) does to what holds of all rows.
use bandcamp_curate.Base.{ℕ, Bool, List, All, All-append, Result}
use bandcamp_curate.Frontier.Tables.{Entry, Table}
use bandcamp_curate.Frontier.Enqueue.{Job, new_row}
use bandcamp_curate.Frontier.Valid.{Ending, added, kept, refused}

-- An enqueue adds its own row or none.
pub enqueue-All :
    (P : Entry → Type 0) (now : ℕ) (job : Job) {seen : List Entry} {t t' : Table} {cap : Bool}
    {r : Result Bool}
    → ((id : ℕ) → P (new_row now id job))
    → Ending now seen t job cap r t'
    → All P t.rows
    → All P t'.rows
enqueue-All P now job {t = t} new (added _ _ _ _) h = All-append P t.rows _ h (new t.next_id, tt)
enqueue-All P now job new (kept _) h = h
enqueue-All P now job new (refused _ _ _ _) h = h
