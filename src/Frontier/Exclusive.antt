-- ===== src/Frontier/Exclusive.antt =====
-- Who may hold a claim of backend/app/crawl/frontier.py: the compare-and-swap against the writes of
-- other crawlers.
use bandcamp_curate.Base.{
  ◌∙◌, ℕ, ◌≡◌, refl, ◌⊎◌, inl, inr, Bool, true, false, Option, none, some, List, [], ◌∷◌, arith,
  ◌==◌, Bool-cases, find-append_some, any, ==_iff,
}
use bandcamp_curate.Frontier.Tables.{
  pending, Entry, Table, KeepsKey, same_status, get_by_id, update_row,
}
use bandcamp_curate.Frontier.Enqueue.{Job}
use bandcamp_curate.Frontier.Claim.{cas, claimed}
use bandcamp_curate.Frontier.Marks.{on_done, on_partial, on_retryable, on_error}
use bandcamp_curate.Frontier.Rows.{get_by_id-update_row}
use bandcamp_curate.Frontier.Valid.{Ending, added, kept, refused, enqueue_raced-Ending}
use bandcamp_curate.Frontier.Interleaving.{
  Write, add, take, finish, park, retry, fail, apply, run, cas_cases, claimed-KeepsKey,
  on_done-KeepsKey, on_partial-KeepsKey, on_retryable-KeepsKey, on_error-KeepsKey,
}

-- The writes that put the entry of an id back on the queue.
unfoldable pub gives_back : ℕ → Write → Bool
gives_back id (park now j c) = id == j
gives_back id (retry now j n) = id == j
gives_back id _ = false

-- The entry of the id is there, and is not PENDING.
abbrev pub IsTaken : ℕ → List Entry → Type 0
IsTaken id rows =
    (e : Entry) × (get_by_id id rows ≡ some e) × (same_status e.status pending ≡ false)

-- An update keeps an entry taken, if the rows that it writes are not PENDING or it writes others.
IsTaken-update :
    (f : Entry → Entry) (k : KeepsKey f) (id j : ℕ) (rows : List Entry)
    → ((id == j) ≡ false) ⊎ ((e : Entry) → same_status (f e).status pending ≡ false)
    → IsTaken id rows
    → IsTaken id (update_row j f rows)
IsTaken-update f k id j rows (inl other) (e, at, taken) =
    (e, get_by_id-update_row f k id j rows ∙ rw other at, taken)
IsTaken-update f k id j rows (inr moves) (e, at, taken) = elim (Bool-cases (id == j)) [
  | inl hit ↦ (f e, get_by_id-update_row f k id j rows ∙ rw hit (rw at), moves e)
  | inr other ↦ (e, get_by_id-update_row f k id j rows ∙ rw other at, taken)
]

IsTaken-Ending :
    {now : ℕ} {seen : List Entry} {t : Table} {job : Job} {cap : Bool} {r : _} {t' : Table} (id : ℕ)
    → Ending now seen t job cap r t'
    → IsTaken id t.rows
    → IsTaken id t'.rows
unfolding get_by_id
IsTaken-Ending {t = t} id (added _ _ _ _) (e, at, taken) =
    (e, find-append_some (λ x. x.id == id) t.rows _ at, taken)
IsTaken-Ending id (kept _) h = h
IsTaken-Ending id (refused _ _ _ _) h = h

apply-IsTaken :
    (setting : Option ℕ) (w : Write) (id : ℕ) (t : Table)
    → gives_back id w ≡ false
    → IsTaken id t.rows
    → IsTaken id (apply setting w t).rows
unfolding apply gives_back
apply-IsTaken setting (add now seen job) id t g h =
    IsTaken-Ending id (enqueue_raced-Ending now setting none seen t job) h
apply-IsTaken setting (take now entry) id t g h = elim (cas_cases now entry t.rows) [
  | inl lost ↦ rw lost h
  | inr (e, read, same, won) ↦ rw won (
      IsTaken-update (claimed now) (claimed-KeepsKey now) id entry.id t.rows
        (inr (unfold claimed same_status in λ x. refl)) h)
]
apply-IsTaken setting (finish now j) id t g h =
    IsTaken-update (on_done now) (on_done-KeepsKey now) id j t.rows
      (inr (unfold on_done same_status in λ x. refl)) h
apply-IsTaken setting (park now j c) id t g h =
    IsTaken-update (on_partial now c) (on_partial-KeepsKey now c) id j t.rows (inl g) h
apply-IsTaken setting (retry now j n) id t g h =
    IsTaken-update (on_retryable now n) (on_retryable-KeepsKey now n) id j t.rows (inl g) h
apply-IsTaken setting (fail now j n) id t g h =
    IsTaken-update (on_error now n) (on_error-KeepsKey now n) id j t.rows
      (inr (unfold on_error same_status in λ x. refl)) h

run-IsTaken :
    (setting : Option ℕ) (ws : List Write) (id : ℕ) (t : Table)
    → any (gives_back id) ws ≡ false
    → IsTaken id t.rows
    → IsTaken id (run setting ws t).rows
unfolding run
run-IsTaken setting [] id t g h = h
run-IsTaken setting (w ∷ ws) id t g h =
    run-IsTaken setting ws id (apply setting w t) (ground arith)
      (apply-IsTaken setting w id t (ground arith) h)

-- A compare-and-swap on a read of PENDING fails at a taken entry.
cas-IsTaken :
    (now : ℕ) (entry : Entry) (rows : List Entry)
    → entry.status ≡ pending
    → IsTaken entry.id rows
    → (cas now entry rows).1 ≡ false
unfolding cas same_status
cas-IsTaken now entry rows p (e, at, taken) = ground arith

won-IsTaken :
    (setting : Option ℕ) (now : ℕ) (entry : Entry) (t : Table)
    → (cas now entry t.rows).1 ≡ true
    → IsTaken entry.id (apply setting (take now entry) t).rows
unfolding apply claimed
won-IsTaken setting now entry t w = elim (cas_cases now entry t.rows) [
  | inl lost ↦ absurd (cc)
  | inr (e, read, same, won) ↦ rw won (
    claimed now e,
    get_by_id-update_row (claimed now) (claimed-KeepsKey now) entry.id entry.id t.rows
        ∙ rw ((==_iff entry.id entry.id).1 refl) (rw read),
    unfold claimed same_status in refl,
  )
]

-- Of all the crawlers that read an entry as PENDING, one claims it. After a compare-and-swap that
-- won, and any writes by anybody that do not put that entry back on the queue, a second
-- compare-and-swap from such a read fails.
pub cas-exclusive :
    (setting : Option ℕ) (now now' : ℕ) (entry : Entry) (t : Table) (ws : List Write)
    → entry.status ≡ pending
    → (cas now entry t.rows).1 ≡ true
    → any (gives_back entry.id) ws ≡ false
    → (cas now' entry (run setting ws (apply setting (take now entry) t)).rows).1 ≡ false
cas-exclusive setting now now' entry t ws p w g = cas-IsTaken now' entry _ p (
    run-IsTaken setting ws entry.id (apply setting (take now entry) t) g
      (won-IsTaken setting now entry t w))
