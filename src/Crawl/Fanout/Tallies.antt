-- ===== src/Crawl/Fanout/Tallies.antt =====
-- The counts that `_enqueue_items` of backend/app/crawl/service.py returns.
use bandcamp_curate.Base.{
  ℕ, suc, ◌+◌, ◌≤◌, ◌≡◌, refl, Bool, Option, none, List, [], ◌∷◌, length, length-snoc, Result, ok,
  raise, Bool-cases, inl, inr, arith,
}
use bandcamp_curate.Frontier.Tables.{Entry, Table}
use bandcamp_curate.Frontier.Enqueue.{Job, new_row, enqueue}
use bandcamp_curate.Frontier.Valid.{Ending, added, kept, refused, enqueue_raced-Ending}
use bandcamp_curate.Graph.Tables.{ParsedItem}
use bandcamp_curate.Crawl.Fanout.{
  FollowedBands, Lead, nowhere, skipped, page, lead_of, within_depth, child_job, Counts,
  add_enqueued, after_enqueue, take_lead, enqueue_loop, enqueue_items,
}

-- How the counts, the rows and the items go together, from the counts and the table before.
unfoldable pub Tallies : Counts → Table → ℕ → Result Counts × Table → Type 0
Tallies n t items (raise e, t') = Unit {0}
Tallies n t items (ok m, t') =
    (length t'.rows + n.enqueued ≡ length t.rows + m.enqueued)
    × (n.enqueued ≤ m.enqueued)
    × (m.enqueued + m.skips ≤ n.enqueued + n.skips + items)

-- What an enqueue adds to the rows is what it adds to the count.
enqueue-length :
    {now : ℕ} {job : Job} {seen : List Entry} {t t' : Table} {cap : Bool} {b : Bool}
    (r : Result Bool) (n : Counts)
    → r ≡ ok b
    → Ending now seen t job cap r t'
    → (length t'.rows + n.enqueued ≡ length t.rows + (add_enqueued b n).enqueued)
      × ((add_enqueued b n).enqueued ≤ n.enqueued + 1)
      × ((add_enqueued b n).skips ≡ n.skips)
      × (n.enqueued ≤ (add_enqueued b n).enqueued)
unfolding add_enqueued
enqueue-length {now = now} {job = job} {t = t} r n e (added _ _ _ _) =
    ground (arith, e, length-snoc t.rows (new_row now t.next_id job))
enqueue-length r n e (kept _) = ground (arith, e)
enqueue-length r n e (refused _ _ _ _) = absurd (ground (arith, e))

Tallies-step :
    (n m : Counts) (t t' : Table) (items : ℕ) (r : Result Counts × Table)
    → length t'.rows + n.enqueued ≡ length t.rows + m.enqueued
    → n.enqueued ≤ m.enqueued
    → m.enqueued + m.skips ≤ n.enqueued + n.skips + 1
    → Tallies m t' items r
    → Tallies n t (suc items) r
unfolding Tallies
Tallies-step n m t t' items (raise e, t'') rows grows counts h = tt
Tallies-step n m t t' items (ok k, t'') rows grows counts h =
    (omega (arith, h.0), omega (arith, h.1), omega (arith, h.2))

module _ (now : ℕ) (setting : Option ℕ) (scan_id depth : ℕ) where
  after_enqueue-Tallies :
      (job : Job) (seen : List Entry) (cap : Bool) (items : ℕ) (t : Table) (r : Result Bool)
      (t' : Table) (n : Counts) (next : Counts → Table → Result Counts × Table)
      → Ending now seen t job cap r t'
      → ((m : Counts) (u : Table) → Tallies m u items (next m u))
      → Tallies n t (suc items) (after_enqueue (r, t') n next)
  unfolding after_enqueue
  after_enqueue-Tallies job seen cap items t (raise e) t' n next end step = unfold Tallies in tt
  after_enqueue-Tallies job seen cap items t (ok b) t' n next end step =
      let (rows, once, skips, grows) = enqueue-length {b = b} (ok b) n refl end in
      Tallies-step n (add_enqueued b n) t t' items (next (add_enqueued b n) t') rows grows
        (omega (arith, once, skips)) (step (add_enqueued b n) t')

  take_lead-Tallies :
      (lead : Lead) (items : ℕ) (n : Counts) (t : Table)
      (next : Counts → Table → Result Counts × Table)
      → ((m : Counts) (u : Table) → Tallies m u items (next m u))
      → Tallies n t (suc items) (take_lead now setting scan_id depth lead n t next)
  unfolding take_lead
  take_lead-Tallies nowhere items n t next step =
      Tallies-step n n t t items (next n t) refl (omega arith) (omega arith) (step n t)
  take_lead-Tallies skipped items n t next step =
      let m : Counts = record n { skips = n.skips + 1 } in
      Tallies-step n m t t items (next m t) refl (omega arith) (omega arith) (step m t)
  take_lead-Tallies (page url kind) items n t next step =
      let job = child_job scan_id depth url kind in
      after_enqueue-Tallies job t.rows _ items t (enqueue now setting t job).0
        (enqueue now setting t job).1 n next
        (unfold enqueue in enqueue_raced-Ending now setting none t.rows t job) step

  enqueue_loop-Tallies :
      (followed : FollowedBands) (items : List ParsedItem) (n : Counts) (t : Table)
      → Tallies n t (length items) (enqueue_loop now setting scan_id depth followed items n t)
  unfolding enqueue_loop
  enqueue_loop-Tallies followed [] n t = unfold Tallies in (refl, omega arith, omega arith)
  enqueue_loop-Tallies followed (item ∷ items) n t =
      take_lead-Tallies (lead_of followed item) (length items) n t
        (enqueue_loop now setting scan_id depth followed items)
        (enqueue_loop-Tallies followed items)

  -- Where it returns, the count of enqueued items is the number of rows that the frontier gained, and
  -- enqueued and skipped items together are no more than the items of the page.
  pub enqueue_items-Tallies :
      (max_depth : Option ℕ) (followed : FollowedBands) (items : List ParsedItem) (t : Table)
      → Tallies
          (record { enqueued = 0; skips = 0 })
          t
          (length items)
          (enqueue_items now setting scan_id depth max_depth followed items t)
  unfolding enqueue_items
  enqueue_items-Tallies max_depth followed items t =
      elim (Bool-cases (within_depth depth max_depth)) [
        | inl near ↦
            rw near (enqueue_loop-Tallies followed items (record { enqueued = 0; skips = 0 }) t)
        | inr far ↦ rw far (unfold Tallies in (refl, omega arith, omega arith))
      ]
