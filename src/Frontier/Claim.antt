-- ===== src/Frontier/Claim.antt =====
-- `claim_next` of backend/app/crawl/frontier.py: the eligible rows, their order, and the
-- compare-and-swap loop.
use bandcamp_curate.Base.{
  ℕ, zero, suc, ◌+◌, Bool, true, false, Option, none, some, List, [], ◌∷◌, ◌==◌, ◌&&◌, ◌||◌, ltb,
  if◌then◌else◌, not, any, where_rows,
}
use bandcamp_curate.Frontier.Tables.{
  CrawlKind, pending, in_progress, Entry, Table, same_kind, same_status, get_by_id, update_row,
}

-- `STALE_CLAIM_AFTER`, in seconds.
abbrev pub stale_claim_after : ℕ
stale_claim_after = 1800

-- `_CLAIM_ATTEMPTS`
abbrev pub claim_attempts : ℕ
claim_attempts = 8

-- `if kinds: … kind IN kinds`; no kinds is no restriction.
unfoldable pub kind_wanted : List CrawlKind → CrawlKind → Bool
kind_wanted [] k = true
kind_wanted (k' ∷ ks) k = any (λ j. same_kind j k) (k' ∷ ks)

-- The `WHERE` of the statement. The cutoff is `now - stale_after`; `updated_at < cutoff` is
-- written without the subtraction.
unfoldable pub eligible : ℕ → ℕ → ℕ → List CrawlKind → Entry → Bool
unfolding kind_wanted
eligible now stale_after scan_id kinds e =
    e.scan_id == scan_id
    && ((same_status e.status pending
          || (same_status e.status in_progress && ltb (e.updated_at + stale_after) now))
        && kind_wanted kinds e.kind)

-- `ORDER BY priority DESC, attempts ASC, id ASC`: whether the first row comes before the second.
unfoldable pub before : Entry → Entry → Bool
before a b =
    ltb b.priority a.priority
    || (a.priority == b.priority
        && (ltb a.attempts b.attempts || (a.attempts == b.attempts && ltb a.id b.id)))

-- `LIMIT 1` of the ordered rows.
unfoldable pub best : List Entry → Option Entry
best [] = none
best (e ∷ rows) = elim (best rows) [
  | none ↦ some e
  | some f ↦ if before f e then some f else some e
]

unfoldable pub next_entry : ℕ → ℕ → ℕ → List CrawlKind → List Entry → Option Entry
unfolding best eligible
next_entry now stale_after scan_id kinds rows =
    best (where_rows (eligible now stale_after scan_id kinds) rows)

-- The claim's `SET`.
unfoldable pub claimed : ℕ → Entry → Entry
claimed now e = record e { status = in_progress; attempts = e.attempts + 1; updated_at = now }

-- `UPDATE … WHERE id = … AND status = …`: the rows, and whether `rowcount == 1`.
unfoldable pub cas : ℕ → Entry → List Entry → List Entry × Bool
unfolding claimed get_by_id
cas now entry rows = elim (get_by_id entry.id rows) [
  | none ↦ (rows, false)
  | some e ↦
      if same_status e.status entry.status
      then (update_row entry.id (claimed now) rows, true)
      else (rows, false)
]

-- The other crawlers during a claim, by the attempt: the ids of the rows that they have locked when
-- it reads, which `FOR UPDATE SKIP LOCKED` passes over on PostgreSQL (none on SQLite, which has no
-- such clause), and what they commit between the read and the update.
pub record Others : Type 0 where
  pub locked : ℕ → List ℕ
  pub commits : ℕ → List Entry → List Entry

-- No other crawler.
abbrev pub alone : Others
alone = record { locked = λ i. []; commits = λ i rows. rows }

-- The rows but the locked ones.
abbrev pub unlocked : List ℕ → List Entry → List Entry
unlocked [] rows = rows
unlocked (id ∷ ids) rows = where_rows (λ e. not (e.id == id)) (unlocked ids rows)

-- The loop over the attempts. What a win returns is the refreshed row.
unfoldable pub try_claims :
    ℕ → ℕ → ℕ → List CrawlKind → Others → ℕ → List Entry → Option Entry × List Entry
unfolding next_entry cas get_by_id
try_claims now stale_after scan_id kinds others zero rows = (none, rows)
try_claims now stale_after scan_id kinds others (suc n) rows =
    elim (next_entry now stale_after scan_id kinds (unlocked (others.locked n) rows)) [
      | none ↦ (none, rows)
      | some entry ↦
          let (rows', won) = cas now entry (others.commits n rows) in
          let again = try_claims now stale_after scan_id kinds others n rows' in
          if won then (get_by_id entry.id rows', rows') else again
    ]

unfoldable pub claim_next : ℕ → ℕ → ℕ → List CrawlKind → Others → Table → Option Entry × Table
unfolding try_claims
claim_next now stale_after scan_id kinds others t =
    let (entry, rows) = try_claims now stale_after scan_id kinds others claim_attempts t.rows in
    (entry, record t { rows = rows })
