-- ===== src/Frontier/Interleaving.antt =====
-- Any number of crawlers on one table of backend/app/crawl/frontier.py: a run is a sequence of the
-- writes that they commit, each made from a read that may be out of date.
use bandcamp_curate.Base.{
  ℕ, ◌≡◌, refl, ◌⊎◌, inl, inr, true, false, Option, none, some, List, [], ◌∷◌, arith, Text,
}
use bandcamp_curate.Frontier.Tables.{
  Cursor, Entry, Table, KeepsKey, same_status, get_by_id, update_row,
}
use bandcamp_curate.Frontier.Enqueue.{Job, enqueue_raced}
use bandcamp_curate.Frontier.Claim.{cas, claimed}
use bandcamp_curate.Frontier.Marks.{
  mark_done, mark_partial, mark_retryable, mark_error, on_done, on_partial, on_retryable, on_error,
}
use bandcamp_curate.Frontier.Valid.{IsValid, enqueue_raced-IsValid, update_row-IsValid}

-- A write of one crawler. `add` carries the rows that its check read, `take` the entry that its
-- claim read.
pub data Write : Type 0 where
  add : ℕ → List Entry → Job → Write
  take : ℕ → Entry → Write
  finish : ℕ → ℕ → Write
  park : ℕ → ℕ → Cursor → Write
  retry : ℕ → ℕ → Text → Write
  fail : ℕ → ℕ → Text → Write

unfoldable pub apply : Option ℕ → Write → Table → Table
unfolding mark_done mark_partial mark_retryable mark_error cas
apply setting (add now seen job) t = (enqueue_raced now setting none seen t job).1
apply setting (take now entry) t = record t { rows = (cas now entry t.rows).0 }
apply setting (finish now id) t = mark_done now id t
apply setting (park now id cursor) t = mark_partial now id cursor t
apply setting (retry now id note) t = mark_retryable now id note t
apply setting (fail now id note) t = mark_error now id note t

unfoldable pub run : Option ℕ → List Write → Table → Table
run setting [] t = t
run setting (w ∷ ws) t = run setting ws (apply setting w t)

pub claimed-KeepsKey : (now : ℕ) → KeepsKey (claimed now)
unfolding claimed
claimed-KeepsKey now = record {
  id_kept = λ e. refl;
  scan_kept = λ e. refl;
  url_kept = λ e. refl;
  kind_kept = λ e. refl;
}

pub on_done-KeepsKey : (now : ℕ) → KeepsKey (on_done now)
unfolding on_done
on_done-KeepsKey now = record {
  id_kept = λ e. refl;
  scan_kept = λ e. refl;
  url_kept = λ e. refl;
  kind_kept = λ e. refl;
}

pub on_partial-KeepsKey : (now : ℕ) (c : Cursor) → KeepsKey (on_partial now c)
unfolding on_partial
on_partial-KeepsKey now c = record {
  id_kept = λ e. refl;
  scan_kept = λ e. refl;
  url_kept = λ e. refl;
  kind_kept = λ e. refl;
}

pub on_retryable-KeepsKey : (now : ℕ) (n : Text) → KeepsKey (on_retryable now n)
unfolding on_retryable
on_retryable-KeepsKey now n = record {
  id_kept = λ e. refl;
  scan_kept = λ e. refl;
  url_kept = λ e. refl;
  kind_kept = λ e. refl;
}

pub on_error-KeepsKey : (now : ℕ) (n : Text) → KeepsKey (on_error now n)
unfolding on_error
on_error-KeepsKey now n = record {
  id_kept = λ e. refl;
  scan_kept = λ e. refl;
  url_kept = λ e. refl;
  kind_kept = λ e. refl;
}

-- A compare-and-swap writes the claimed row, or nothing.
pub cas_cases :
    (now : ℕ) (entry : Entry) (rows : List Entry)
    → ((cas now entry rows ≡ (rows, false)))
      ⊎ ((e : Entry) × (get_by_id entry.id rows ≡ some e)
          × (same_status e.status entry.status ≡ true)
          × (cas now entry rows ≡ (update_row entry.id (claimed now) rows, true)))
unfolding cas
cas_cases now entry rows = ground arith

apply-IsValid :
    (setting : Option ℕ) (w : Write) (t : Table) → IsValid t → IsValid (apply setting w t)
unfolding apply
apply-IsValid setting (add now seen job) t v = enqueue_raced-IsValid now setting none seen t job v
apply-IsValid setting (take now entry) t v = elim (cas_cases now entry t.rows) [
  | inl lost ↦ rw lost v
  | inr (e, read, same, won) ↦
      rw won (update_row-IsValid (claimed now) (claimed-KeepsKey now) entry.id t v)
]
apply-IsValid setting (finish now id) t v =
    update_row-IsValid (on_done now) (on_done-KeepsKey now) id t v
apply-IsValid setting (park now id c) t v =
    update_row-IsValid (on_partial now c) (on_partial-KeepsKey now c) id t v
apply-IsValid setting (retry now id n) t v =
    update_row-IsValid (on_retryable now n) (on_retryable-KeepsKey now n) id t v
apply-IsValid setting (fail now id n) t v =
    update_row-IsValid (on_error now n) (on_error-KeepsKey now n) id t v

-- Whatever the crawlers commit, in whatever order and from however old a read, the table keeps its
-- invariant: no (scan_id, url, kind) and no id twice, ids below the sequence, no row without a scan.
pub run-IsValid :
    (setting : Option ℕ) (ws : List Write) (t : Table) → IsValid t → IsValid (run setting ws t)
unfolding run
run-IsValid setting [] t v = v
run-IsValid setting (w ∷ ws) t v =
    run-IsValid setting ws (apply setting w t) (apply-IsValid setting w t v)
