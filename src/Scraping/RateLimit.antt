-- ===== src/Scraping/RateLimit.antt =====
-- backend/app/scraping/ratelimit.py: the token bucket and the concurrency cap. Time is counted in
-- microseconds and `max_qps` in hundredths of a request per second, so that one token is 10^8
-- units, the refill of a microsecond is a whole number of units, and all sums are exact.
pub mod Bounds
use bandcamp_curate.Base.{
  ℕ, zero, suc, ◌+◌, ◌-◌, ◌*◌, ◌/◌, Bool, true, false, Option, none, some, List, [], ◌∷◌, leb,
  if◌then◌else◌, min, max,
}

-- One token, `1.0`.
abbrev pub one : ℕ
one = 100000000

pub record RateLimiter : Type 0 where
  pub rate : ℕ
  pub capacity : ℕ
  pub tokens : ℕ
  pub updated : ℕ
  pub permits : ℕ

-- `__init__`: the rate is at least 0.01 per second, the capacity at least one token.
unfoldable pub init : ℕ → ℕ → ℕ → RateLimiter
init now max_qps max_concurrency =
    let capacity : ℕ = max (max_qps * 1000000) one in
    record {
      rate = max max_qps 1;
      capacity = capacity;
      tokens = capacity;
      updated = now;
      permits = max max_concurrency 1;
    }

-- `min(capacity, tokens + (now - updated) * rate)`
unfoldable pub refilled : ℕ → RateLimiter → ℕ
refilled now l = min l.capacity (l.tokens + (now - l.updated) * l.rate)

-- A wait of `deficit / rate`, rounded up to a microsecond, as a sleep is never shorter.
unfoldable pub wait_for : ℕ → ℕ → ℕ
wait_for deficit rate = (deficit + rate - 1) / rate

-- The body of the loop of `_acquire_token`, under the lock: the limiter, and how long to sleep, or
-- `none` if a token was taken.
unfoldable pub poll : ℕ → RateLimiter → RateLimiter × Option ℕ
unfolding refilled wait_for
poll now l =
    let tokens = refilled now l in
    if leb one tokens
    then (record l { tokens = tokens - one; updated = now }, none)
    else (record l { tokens = tokens; updated = now }, some (wait_for (one - tokens) l.rate))

-- `_semaphore.acquire()`, which waits while no permit is left, and `release()`.
unfoldable pub acquire_permit : RateLimiter → Option RateLimiter
acquire_permit l = elim l.permits [ zero ↦ none | suc p ↦ some (record l { permits = p }) ]

unfoldable pub release_permit : RateLimiter → RateLimiter
release_permit l = record l { permits = l.permits + 1 }

-- What `__aenter__` does after the permit: it takes the token, or gives the permit back if the
-- wait for the token is cancelled.
unfoldable pub enter_slot : Bool → ℕ → RateLimiter → RateLimiter × Bool
unfolding poll release_permit
enter_slot cancelled now l = if cancelled then (release_permit l, false) else ((poll now l).0, true)

-- Polls at the times of a list, the earliest first; the number that took a token.
unfoldable pub polls : List ℕ → RateLimiter → RateLimiter × ℕ
polls [] l = (l, 0)
polls (now ∷ times) l =
    let (l', wait) = poll now l in
    let (l'', n) = polls times l' in (l'', elim wait [ none ↦ suc n | some _ ↦ n ])
