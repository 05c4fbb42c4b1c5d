-- ===== src/Crawl/Runner/Settles.antt =====
-- How `process_one` of backend/app/crawl/runner.py leaves the entry that it claimed.
use bandcamp_curate.Base.{
  ℕ, zero, suc, ◌+◌, ◌≡◌, refl, ◌∙◌, ◌⊎◌, inl, inr, Bool, true, false, Option, none, some, List, [],
  leb, ==_iff, Text, Bool-cases, Option-cases,
}
use mathlib.Core.Option
use bandcamp_curate.Frontier.Tables.{
  in_progress, same_status, Cursor, Entry, Table, KeepsKey, get_by_id, update_row,
}
use bandcamp_curate.Frontier.Claim.{Others, claim_next}
use bandcamp_curate.Frontier.Marks.{
  mark_done, mark_partial, mark_retryable, mark_error, on_done, on_partial, on_retryable, on_error,
}
use bandcamp_curate.Frontier.Rows.{get_by_id-update_row}
use bandcamp_curate.Frontier.Interleaving.{
  on_done-KeepsKey, on_partial-KeepsKey, on_retryable-KeepsKey, on_error-KeepsKey,
}
use bandcamp_curate.Crawl.Database.{
  Db, Attempt, finished, timed_out, conflict, failed, interrupted, write_failed,
}
use bandcamp_curate.Crawl.Runner.{
  ClaimArgs, Processed, unclosed, cancelled, set_timeouts, on_timeout, on_failure, close_entry,
  conclude, follow, again_with, attempts, process_one, max_entry_timeouts,
}

-- The row of the id is gone, or it is not in progress.
abbrev pub IsSettled : ℕ → List Entry → Type 0
IsSettled id rows =
    (get_by_id id rows ≡ none)
    ⊎ ((e : Entry) × (get_by_id id rows ≡ some e) × (same_status e.status in_progress ≡ false))

update-IsSettled :
    (f : Entry → Entry) (k : KeepsKey f) (id : ℕ) (rows : List Entry)
    → ((e : Entry) → same_status (f e).status in_progress ≡ false)
    → IsSettled id (update_row id f rows)
update-IsSettled f k id rows moves =
    let at : get_by_id id (update_row id f rows) ≡ Option.map f (get_by_id id rows) =
      get_by_id-update_row f k id id rows ∙ rw ((==_iff id id).1 refl) in
    elim (Option-cases (get_by_id id rows)) [
      | inl gone ↦ inl (at ∙ rw gone)
      | inr (e, found) ↦ inr (f e, at ∙ rw found, moves e)
    ]

close_entry-IsSettled :
    (now id : ℕ) (cursor : Option Cursor) (t : Table)
    → IsSettled id (close_entry now id cursor t).rows
unfolding close_entry mark_partial mark_done same_status
close_entry-IsSettled now id none t =
    update-IsSettled (on_done now) (on_done-KeepsKey now) id t.rows (λ e. refl)
close_entry-IsSettled now id (some c) t =
    update-IsSettled (on_partial now c) (on_partial-KeepsKey now c) id t.rows (λ e. refl)

mark_error-IsSettled :
    (now id : ℕ) (note : Text) (t : Table) → IsSettled id (mark_error now id note t).rows
unfolding mark_error same_status
mark_error-IsSettled now id note t =
    update-IsSettled (on_error now note) (on_error-KeepsKey now note) id t.rows (λ e. refl)

mark_retryable-IsSettled :
    (now id : ℕ) (note : Text) (t : Table) → IsSettled id (mark_retryable now id note t).rows
unfolding mark_retryable same_status
mark_retryable-IsSettled now id note t =
    update-IsSettled (on_retryable now note) (on_retryable-KeepsKey now note) id t.rows (λ e. refl)

on_timeout-IsSettled :
    (now id : ℕ) (note : Text) (t : Table)
    → IsSettled id (on_timeout now id note (get_by_id id t.rows) t).rows
unfolding on_timeout
on_timeout-IsSettled now id note t = elim (Option-cases (get_by_id id t.rows)) [
  | inl gone ↦ rw (gone, on_timeout) (inl gone)
  | inr (e, found) ↦ elim (Bool-cases (leb max_entry_timeouts (e.timeout_count + 1))) [
    | inl out ↦
        rw (found, on_timeout)
          (rw out (mark_error-IsSettled now id _ (set_timeouts id (e.timeout_count + 1) t)))
    | inr more ↦
        rw (found, on_timeout)
          (rw more (mark_retryable-IsSettled now id note (set_timeouts id (e.timeout_count + 1) t)))
  ]
]

on_failure-IsSettled :
    (now id : ℕ) (note : Text) (t : Table)
    → IsSettled id (on_failure now id note (get_by_id id t.rows) t).rows
unfolding on_failure
on_failure-IsSettled now id note t = elim (Option-cases (get_by_id id t.rows)) [
  | inl gone ↦ rw (gone, on_failure) (inl gone)
  | inr (e, found) ↦ rw (found, on_failure) (mark_error-IsSettled now id note t)
]

-- Whether `process_one` ended by a cancellation or a failed closing write.
unfoldable pub escaped : Processed → Bool
escaped cancelled = true
escaped (unclosed note) = true
escaped _ = false

-- The entry is settled where nothing escaped.
abbrev pub IsClosed : {W : Type 0} → ℕ → Processed × Db W → Type 0
IsClosed id r = IsSettled id r.1.frontier.rows ⊎ (escaped r.0 ≡ true)

conclude-IsSettled :
    {W : Type 0} (now id : ℕ) (end : Attempt) (db : Db W) → IsClosed id (conclude now id end db)
unfolding conclude escaped
conclude-IsSettled now id (finished o) db = inl (close_entry-IsSettled now id o.cursor db.frontier)
conclude-IsSettled now id (timed_out note) db = inl (on_timeout-IsSettled now id note db.frontier)
conclude-IsSettled now id (conflict note) db = inl (on_failure-IsSettled now id note db.frontier)
conclude-IsSettled now id (failed note) db = inl (on_failure-IsSettled now id note db.frontier)
conclude-IsSettled now id interrupted db = inr refl
conclude-IsSettled now id (write_failed note) db = inr refl

again_with-IsSettled :
    {W : Type 0} (id : ℕ) (db : Db W) (next : Entry → Db W → Processed × Db W)
    → ((e : Entry) → IsClosed id (next e db))
    → IsClosed id (again_with (get_by_id id db.frontier.rows) db next)
unfolding again_with
again_with-IsSettled id db next h = elim (Option-cases (get_by_id id db.frontier.rows)) [
  | inl gone ↦ rw (gone, again_with) (inl (inl gone))
  | inr (e, found) ↦ rw (found, again_with) (h e)
]

follow-IsSettled :
    {W : Type 0} (now id : ℕ) (end : Attempt) (db : Db W) (next : Entry → Db W → Processed × Db W)
    → ((e : Entry) (db' : Db W) → IsClosed id (next e db'))
    → IsClosed id (follow now id end db next)
unfolding follow
follow-IsSettled now id (conflict note) db next h = again_with-IsSettled id db next (λ e. h e db)
follow-IsSettled now id end db next h = conclude-IsSettled now id end db

module _ {W : Type 0} (work : ℕ → Entry → Db W → Attempt × Db W) where
  attempts-IsSettled :
      (now id left attempt : ℕ) (entry : Entry) (db : Db W)
      → IsClosed id (attempts work now id left attempt entry db)
  unfolding attempts
  attempts-IsSettled now id zero attempt entry db =
      conclude-IsSettled now id (work attempt entry db).0 (work attempt entry db).1
  attempts-IsSettled now id (suc left) attempt entry db =
      follow-IsSettled now id (work attempt entry db).0 (work attempt entry db).1
        (attempts work now id left (suc attempt)) (attempts-IsSettled now id left (suc attempt))

  -- Whatever happens to the entry that `process_one` claimed (it is crawled in full or in part, it
  -- times out, loses every lock race or fails) and whatever other crawlers commit during the claim:
  -- when `process_one` is over, its row is gone or is not in progress, or else what ended
  -- `process_one` is the cancellation of its job or the failure of the write that closes the entry.
  pub process_one-IsSettled :
      (c : ClaimArgs) (others : Others) (db : Db W) (e : Entry)
      → (claim_next c.now c.stale_after c.scan_id [] others db.frontier).0 ≡ some e
      → IsClosed e.id (process_one work c others db)
  unfolding process_one
  process_one-IsSettled c others db e claimed =
      rw (claimed, process_one) (attempts-IsSettled c.now e.id 2 1 e _)
