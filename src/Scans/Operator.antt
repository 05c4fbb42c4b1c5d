-- ===== src/Scans/Operator.antt =====
-- The legacy operator chain: backend/app/crawl/seed.py, and the jobs `seed_crawl` and `crawl_next` of
-- backend/app/worker.py. The jobs queued in Redis are a list of the scans that they are for.
use bandcamp_curate.Base.{
  ℕ, zero, suc, ◌≡◌, Bool, true, false, inl, inr, ◌&&◌, not, Option, none, some, List, [], ◌∷◌,
  ◌++◌, ltb, if◌then◌else◌, Text, find, Result, ok, raise, invalid, unsupported, arith, Bool-cases,
}
use bandcamp_curate.Frontier.Tables.{Table, fan_collection}
use bandcamp_curate.Frontier.Enqueue.{Job, enqueue}
use bandcamp_curate.Frontier.Marks.{pending_count}
use bandcamp_curate.Crawl.Database.{Db, scan_budget_exhausted}
use bandcamp_curate.Crawl.Runner.{Processed, nothing, processed, reraised, unclosed, cancelled}
use bandcamp_curate.Scans.Tables.{ScanKind, collection, custom, Scan}

abbrev pub seed_priority : ℕ
seed_priority = 100

abbrev is_collection : ScanKind → Bool
is_collection collection = true
is_collection custom = false

-- `operator_scan_id`; the scans stand in the order of their ids.
unfoldable pub operator_scan_id : List Scan → Result ℕ
operator_scan_id scans = elim (find (λ (s : Scan). is_collection s.kind) scans) [
  | none ↦ raise invalid
  | some s ↦ ok s.id
]

-- `url or settings.bandcamp_fan_url`, of which an empty one is refused.
unfoldable pub seed_url_of : Option Text → Text → Result Text
seed_url_of none [] = raise invalid
seed_url_of none (c ∷ setting) = ok (c ∷ setting)
seed_url_of (some []) [] = raise invalid
seed_url_of (some []) (c ∷ setting) = ok (c ∷ setting)
seed_url_of (some (c ∷ url)) setting = ok (c ∷ url)

-- The scan that is named, or the operator's.
unfoldable pub scan_to_seed : Option ℕ → List Scan → Result ℕ
unfolding operator_scan_id
scan_to_seed none scans = operator_scan_id scans
scan_to_seed (some scan_id) scans = ok scan_id

abbrev seed_job : ℕ → Text → Job
seed_job scan_id url = record {
  scan_id = scan_id;
  url = url;
  kind = fan_collection;
  priority = seed_priority;
  depth = 0;
}

-- What is committed after the enqueue, whether it added a row or found one.
unfoldable pub seeded : Text → Table → Result Bool × Table → Result Text × Table
seeded url t (raise e, t') = (raise e, t)
seeded url t (ok added, t') = (ok url, t')

-- `now` and the setting of the cap are those of `enqueue`.
unfoldable pub seed_fan_collection :
    ℕ → Option ℕ → Text → Option Text → Option ℕ → List Scan → Table → Result Text × Table
unfolding seed_url_of scan_to_seed seeded enqueue
seed_fan_collection now cap setting url scan_id scans t = elim (seed_url_of url setting) [
  | raise e ↦ (raise e, t)
  | ok seed_url ↦ elim (scan_to_seed scan_id scans) [
    | raise e ↦ (raise e, t)
    | ok sid ↦ seeded seed_url t (enqueue now cap t (seed_job sid seed_url))
  ]
]

-- The job is queued after the commit.
unfoldable pub queue_chain : ℕ → Result Text × Table → List ℕ → Result Text × Table × List ℕ
queue_chain scan_id (raise e, t) jobs = (raise e, t, jobs)
queue_chain scan_id (ok url, t) jobs = (ok url, t, jobs ++ scan_id ∷ [])

-- The job `seed_crawl`; `enabled` is the setting of that name.
unfoldable pub seed_crawl :
    Bool
    → ℕ
    → Option ℕ
    → Text
    → Option Text
    → List Scan
    → Table
    → List ℕ
    → Result Text × Table × List ℕ
unfolding operator_scan_id seed_fan_collection queue_chain
seed_crawl false now cap setting url scans t jobs = (raise unsupported, t, jobs)
seed_crawl true now cap setting url scans t jobs = elim (operator_scan_id scans) [
  | raise e ↦ (raise e, t, jobs)
  | ok scan_id ↦
      queue_chain scan_id (seed_fan_collection now cap setting url (some scan_id) scans t) jobs
]

-- `outcome is not None`, where an exception of the entry was recorded.
unfoldable pub has_outcome : Processed → Bool
has_outcome nothing = false
has_outcome (processed o) = true
has_outcome (reraised note) = false
has_outcome (unclosed note) = false
has_outcome cancelled = false

module _ {W : Type 0} where
  -- Whether the chain goes on.
  unfoldable pub work_left : Option ℕ → ℕ → Db W → Bool
  unfolding pending_count scan_budget_exhausted
  work_left limit scan_id db =
      ltb 0 (pending_count none scan_id db.frontier.rows)
      && not (scan_budget_exhausted scan_id limit db.usage)

  unfoldable pub chained : Option ℕ → ℕ → List ℕ → Processed × Db W → Bool × Db W × List ℕ
  unfolding has_outcome work_left
  chained limit scan_id jobs (p, db) =
      (has_outcome p, db, if work_left limit scan_id db then jobs ++ scan_id ∷ [] else jobs)

  -- The job `crawl_next`. `step` is `process_one` for the scan.
  unfoldable pub crawl_next :
      Option ℕ → ℕ → (Db W → Processed × Db W) → Db W → List ℕ → Bool × Db W × List ℕ
  unfolding chained
  crawl_next limit scan_id step db jobs =
      if scan_budget_exhausted scan_id limit db.usage
      then (false, db, jobs)
      else chained limit scan_id jobs (step db)

  -- At most so many jobs of a chain whose scan has the queue to itself: the database at its end, or
  -- `none` where a job is still queued. Job `n` runs `process_one` as `step n` has it.
  unfoldable pub run_chain : Option ℕ → ℕ → (ℕ → Db W → Processed × Db W) → ℕ → Db W → Option (Db W)
  unfolding crawl_next
  run_chain limit scan_id step zero db = none
  run_chain limit scan_id step (suc n) db =
      let (found, db', jobs) = crawl_next limit scan_id (step n) db [] in
      elim jobs [ [] ↦ some db' | j ∷ rest ↦ run_chain limit scan_id step n db' ]

  -- A chain that has ended has left nothing pending of its scan, or has spent the scan's budget,
  -- whatever the entries did; and what each entry keeps while there is budget, the chain keeps.
  pub run_chain-ends :
      (P : Db W → Type 0) (limit : Option ℕ) (scan_id : ℕ) (step : ℕ → Db W → Processed × Db W)
      (n : ℕ) (db : Db W) {end : Db W}
      → ((i : ℕ) (d : Db W)
          → scan_budget_exhausted scan_id limit d.usage ≡ false
          → P d
          → P (step i d).1)
      → P db
      → run_chain limit scan_id step n db ≡ some end
      → (work_left limit scan_id end ≡ false) × P end
  unfolding run_chain
  run_chain-ends P limit scan_id step zero db keep p h = ground (arith, h)
  run_chain-ends P limit scan_id step (suc n) db {end = end} keep p h =
      elim (Bool-cases (scan_budget_exhausted scan_id limit db.usage)) [
        | inl spent ↦
            let same : db ≡ end = ground (arith, h, spent) in rw (← same) (ground (arith, spent), p)
        | inr funds ↦
            let db' = (step n db).1 in
            let kept = keep n db funds p in
            elim (Bool-cases (work_left limit scan_id db')) [
              | inl more ↦
                  let rest : run_chain limit scan_id step n db' ≡ some end =
                    ground (arith, h, funds, more) in
                  run_chain-ends P limit scan_id step n db' {end = end} keep kept rest
              | inr over ↦
                  let same : db' ≡ end = ground (arith, h, funds, over) in rw (← same) (over, kept)
            ]
      ]
