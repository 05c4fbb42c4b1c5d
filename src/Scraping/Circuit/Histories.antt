-- ===== src/Scraping/Circuit/Histories.antt =====
-- The circuit breaker (backend/app/scraping/circuit.py) against the history of what was reported to
-- it, the latest first.
use bandcamp_curate.Base.{
  ℕ, suc, ◌-◌, ◌≡◌, refl, Bool, true, false, Option, none, some, List, [], ◌∷◌, arith, leb,
  if◌then◌else◌, count_rows, Option-cases,
}
use bandcamp_curate.Scraping.Circuit.{
  CircuitBreaker, init, allow, record_success, record_failure, open_circuit,
}

-- A call of the breaker, at a time.
pub data Report : Type 0 where
  succeeded : Report
  failed : ℕ → Report
  forced_open : ℕ → Report

unfoldable pub report : Report → CircuitBreaker → CircuitBreaker
report succeeded b = record_success b
report (failed now) b = record_failure now b
report (forced_open now) b = open_circuit now b

unfoldable pub after : List Report → CircuitBreaker → CircuitBreaker
unfolding report
after [] b = b
after (r ∷ history) b = report r (after history b)

-- What was reported since the last success.
unfoldable pub since_success : List Report → List Report
since_success [] = []
since_success (succeeded ∷ history) = []
since_success (failed now ∷ history) = failed now ∷ since_success history
since_success (forced_open now ∷ history) = forced_open now ∷ since_success history

abbrev is_failure : Report → Bool
is_failure succeeded = false
is_failure (failed now) = true
is_failure (forced_open now) = false

unfoldable pub failures_in : List Report → ℕ
failures_in history = count_rows is_failure history

-- The time of the latest report that opened the circuit: one by force, or a failure with which
-- there are `fail_max` since the last success.
unfoldable pub opening : ℕ → List Report → Option ℕ
unfolding failures_in
opening fail_max [] = none
opening fail_max (succeeded ∷ history) = none
opening fail_max (forced_open now ∷ history) = some now
opening fail_max (failed now ∷ history) =
    let earlier = opening fail_max history in
    if leb fail_max (suc (failures_in (since_success history))) then some now else earlier

unfoldable pub allowed : ℕ → ℕ → Option ℕ → Bool
allowed now reset_timeout none = true
allowed now reset_timeout (some at) = leb reset_timeout (now - at)

-- The fields of the breaker after a history.
after-fields :
    (fail_max reset_timeout : ℕ) (history : List Report)
    → let b = after history (init fail_max reset_timeout) in
      (b.fail_max ≡ fail_max)
      × (b.reset_timeout ≡ reset_timeout)
      × (b.failures ≡ failures_in (since_success history))
      × (b.opened_at ≡ opening fail_max history)
unfolding after init record_success record_failure open_circuit since_success failures_in opening
after-fields m t [] = (refl, refl, refl, refl)
after-fields m t (succeeded ∷ history) = ground (arith, after-fields m t history)
after-fields m t (failed now ∷ history) = ground (arith, after-fields m t history)
after-fields m t (forced_open now ∷ history) = ground (arith, after-fields m t history)

-- Whatever was reported to a new breaker, in whatever order, it lets a request through unless the
-- circuit was opened since the last success, by force or by a failure with which there were
-- `fail_max` of them, and less than `reset_timeout` has passed since the latest such report.
pub after-allow :
    (fail_max reset_timeout now : ℕ) (history : List Report)
    → allow now (after history (init fail_max reset_timeout))
      ≡ allowed now reset_timeout (opening fail_max history)
unfolding allow allowed
after-allow m t now history =
    ground (arith, after-fields m t history, Option-cases (opening m history))
