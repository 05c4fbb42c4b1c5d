-- ===== src/Scraping/Circuit/Trips.antt =====
-- Failures in a row (backend/app/scraping/circuit.py).
use bandcamp_curate.Base.{ℕ, zero, suc, ◌+◌, ◌≤◌, ◌<◌, ◌≡◌, true, false, none, arith}
use bandcamp_curate.Scraping.Circuit.{CircuitBreaker, allow, record_success, record_failure}

-- `n` failures in a row, at the times that `at` gives.
unfoldable pub fail_times : (ℕ → ℕ) → ℕ → CircuitBreaker → CircuitBreaker
fail_times at zero b = b
fail_times at (suc n) b = record_failure (at n) (fail_times at n b)

fail_times_counts :
    (at : ℕ → ℕ) (n : ℕ) (b : CircuitBreaker)
    → ((fail_times at n b).failures ≡ b.failures + n)
      × ((fail_times at n b).fail_max ≡ b.fail_max)
      × ((fail_times at n b).reset_timeout ≡ b.reset_timeout)
unfolding fail_times record_failure
fail_times_counts at zero b = ground arith
fail_times_counts at (suc n) b = ground (arith, fail_times_counts at n b)

fail_times_closed :
    (at : ℕ → ℕ) (n : ℕ) (b : CircuitBreaker)
    → b.opened_at ≡ none
    → b.failures + n < b.fail_max
    → (fail_times at n b).opened_at ≡ none
unfolding fail_times record_failure
fail_times_closed at zero b h lt = h
fail_times_closed at (suc n) b h lt =
    ground (arith, fail_times_closed at n b, fail_times_counts at n b)

-- From a success on, the breaker lets requests through during fewer than `fail_max` failures, at
-- any time; the failure that brings the count to `fail_max` or past it opens the circuit, and it
-- refuses until `reset_timeout` has passed since, and allows a probe from then on.
pub fail_times_trips :
    (at : ℕ → ℕ) (n : ℕ) (b : CircuitBreaker) (now : ℕ)
    → at n ≤ now
    → ((n < b.fail_max → allow now (fail_times at n (record_success b)) ≡ true)
        × (b.fail_max ≤ suc n
            → now < at n + b.reset_timeout
            → allow now (fail_times at (suc n) (record_success b)) ≡ false)
        × (b.fail_max ≤ suc n
            → at n + b.reset_timeout ≤ now
            → allow now (fail_times at (suc n) (record_success b)) ≡ true))
unfolding fail_times record_failure allow record_success
fail_times_trips at n b now h =
    let c = record b { failures = 0; opened_at = none } in
    (
      λ lt. ground (arith, fail_times_closed at n c),
      λ le lt. ground (arith, fail_times_counts at n c),
      λ le ge. ground (arith, fail_times_counts at n c),
    )
