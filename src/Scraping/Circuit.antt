-- ===== src/Scraping/Circuit.antt =====
-- backend/app/scraping/circuit.py: the per-provider circuit breaker. `time.monotonic()` is the
-- argument `now`; times and `reset_timeout` are counted in one unit of the clock.
pub mod Histories
pub mod Trips
use bandcamp_curate.Base.{
  ℕ, zero, suc, ◌+◌, ◌-◌, ◌≤◌, ◌<◌, ◌≡◌, Bool, true, false, Option, none, some, arith, leb,
  if◌then◌else◌,
}

pub data CircuitState : Type 0 where
  closed opened half_open : CircuitState

pub record CircuitBreaker : Type 0 where
  pub fail_max : ℕ
  pub reset_timeout : ℕ
  pub failures : ℕ
  pub opened_at : Option ℕ

unfoldable pub init : ℕ → ℕ → CircuitBreaker
init fail_max reset_timeout = record {
  fail_max = fail_max;
  reset_timeout = reset_timeout;
  failures = 0;
  opened_at = none;
}

-- The property `state`; the clock is monotonic, so `now - opened_at` is not negative.
unfoldable pub state_at : ℕ → CircuitBreaker → Option ℕ → CircuitState
state_at now b none = closed
state_at now b (some at) = if leb b.reset_timeout (now - at) then half_open else opened

unfoldable pub state : ℕ → CircuitBreaker → CircuitState
unfolding state_at
state now b = state_at now b b.opened_at

unfoldable pub allow : ℕ → CircuitBreaker → Bool
unfolding state
allow now b = elim (state now b) [ opened ↦ false | _ ↦ true ]

unfoldable pub record_success : CircuitBreaker → CircuitBreaker
record_success b = record b { failures = 0; opened_at = none }

unfoldable pub open_circuit : ℕ → CircuitBreaker → CircuitBreaker
open_circuit now b = record b { opened_at = some now }

unfoldable pub record_failure : ℕ → CircuitBreaker → CircuitBreaker
unfolding open_circuit
record_failure now b =
    let c = record b { failures = b.failures + 1 } in
    if leb c.fail_max c.failures then open_circuit now c else c
