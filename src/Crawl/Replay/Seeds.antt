-- ===== src/Crawl/Replay/Seeds.antt =====
-- The fans that `_enqueue_fans` (backend/app/crawl/replay.py) and the loops of `crawl_album` and
-- `crawl_track` (backend/app/crawl/service.py) put on the frontier.
use bandcamp_curate.Base.{
  ◌+◌, ℕ, ◌≡◌, refl, Bool, false, Option, none, some, List, [], ◌∷◌, All, Text, Result, ok, raise,
  Bool-cases, inl, inr,
}
use bandcamp_curate.Frontier.Tables.{fan_collection, Entry, Table}
use bandcamp_curate.Frontier.Enqueue.{new_row, enqueue}
use bandcamp_curate.Frontier.Valid.{enqueue_raced-Ending}
use bandcamp_curate.Crawl.Fanout.{child_job}
use bandcamp_curate.Crawl.Fanout.Rows.{enqueue-All}
use bandcamp_curate.Crawl.Replay.{
  Seed, FanRef, FanCounts, is_seed, count_added, after_fan_job, take_fan, enqueue_fans,
}

module _ (P : Entry → Type 0) (now : ℕ) (setting : Option ℕ) (scan_id depth : ℕ) (seed : Seed) where
  after_fan_job-All :
      (r : Result Bool × Table) (n : FanCounts)
      (next : FanCounts → Table → Result FanCounts × Table)
      → All P r.1.rows
      → ((m : FanCounts) (t : Table) → All P t.rows → All P (next m t).1.rows)
      → All P (after_fan_job r n next).1.rows
  unfolding after_fan_job
  after_fan_job-All (raise e, t) n next h step = h
  after_fan_job-All (ok b, t) n next h step = step (count_added b n) t h

  -- What a round may add for a fan.
  abbrev pub Fits : FanRef → Type 0
  Fits ref =
      (url : Text) (id : ℕ)
      → ref.url ≡ some url
      → is_seed seed ref.fan_id url ≡ false
      → P (new_row now id (child_job scan_id depth url fan_collection))

  take_fan-All :
      (fan_id : Option ℕ) (url : Option Text) (n : FanCounts) (t : Table)
      (next : FanCounts → Table → Result FanCounts × Table)
      → Fits (record { url = url; fan_id = fan_id })
      → All P t.rows
      → ((m : FanCounts) (t' : Table) → All P t'.rows → All P (next m t').1.rows)
      → All P (take_fan now setting scan_id depth seed fan_id url n t next).1.rows
  unfolding take_fan
  take_fan-All fan_id none n t next new h step = step n t h
  take_fan-All fan_id (some []) n t next new h step = step n t h
  take_fan-All fan_id (some (c ∷ rest)) n t next new h step =
      elim (Bool-cases (is_seed seed fan_id (c ∷ rest))) [
        | inl self ↦ rw self (step (record n { skipped_self = n.skipped_self + 1 }) t h)
        | inr other ↦
            let job = child_job scan_id depth (c ∷ rest) fan_collection in
            rw other (
              after_fan_job-All (enqueue now setting t job) n next
                (unfold enqueue in
                  enqueue-All P now job (λ id. new (c ∷ rest) id refl other)
                    (enqueue_raced-Ending now setting none t.rows t job) h)
                step)
      ]

  -- Whatever holds of the frontier's rows, and of each new PENDING row of this scan, one level below
  -- the page, for the collection of a fan of the list that has a URL and neither the seed's id nor the
  -- seed's URL: it holds of all rows afterwards. So nothing else is added and no row is changed.
  pub enqueue_fans-All :
      (refs : List FanRef) (n : FanCounts) (t : Table)
      → ((ref : FanRef) → Fits ref)
      → All P t.rows
      → All P (enqueue_fans now setting scan_id depth seed refs n t).1.rows
  unfolding enqueue_fans
  enqueue_fans-All [] n t new h = h
  enqueue_fans-All (ref ∷ refs) n t new h =
      take_fan-All ref.fan_id ref.url n t (enqueue_fans now setting scan_id depth seed refs)
        (new ref) h (λ m t'. enqueue_fans-All refs m t' new)
