-- ===== src/Scraping/RateLimit/Bounds.antt =====
-- What the bucket of backend/app/scraping/ratelimit.py promises of the request rate.
use bandcamp_curate.Base.{
  sym, subst, ap, Option-cases, ℕ, ◌+◌, ◌-◌, ◌*◌, ◌≤◌, ◌<◌, ◌≡◌, none, some, List, [], ◌∷◌, arith,
  max, inl, inr,
}
use native.Mathlib.Nat.{add-mul}
use bandcamp_curate.Scraping.RateLimit.{RateLimiter, one, refilled, wait_for, poll, polls, init}

-- The times are in order, from `t` on and up to `last`.
abbrev pub InOrder : ℕ → List ℕ → ℕ → Type 0
InOrder t [] last = t ≤ last
InOrder t (now ∷ times) last = (t ≤ now) × InOrder now times last

InOrder-le : (t : ℕ) (times : List ℕ) (last : ℕ) → InOrder t times last → t ≤ last
InOrder-le t [] last h = h
InOrder-le t (now ∷ times) last h = omega (arith, h.0, InOrder-le now times last h.1)

-- One poll takes no more than what the refill brought.
poll_budget :
    (now : ℕ) (l : RateLimiter)
    → ((poll now l).1 ≡ none → (poll now l).0.tokens + one ≤ l.tokens + (now - l.updated) * l.rate)
      × ((poll now l).0.tokens ≤ l.tokens + (now - l.updated) * l.rate)
      × ((poll now l).0.updated ≡ now)
      × ((poll now l).0.rate ≡ l.rate)
      × ((poll now l).0.capacity ≡ l.capacity)
unfolding poll
poll_budget now l = (λ e. ground arith, ground arith, ground arith, ground arith, ground arith)

split_span : (t u v r : ℕ) → t ≤ u → u ≤ v → (u - t) * r + (v - u) * r ≡ (v - t) * r
split_span t u v r h k =
    let e : (u - t) + (v - u) ≡ v - t = omega arith in
    omega (arith, ap (λ (x : ℕ). x * r) e, add-mul (u - t) (v - u) r)

polls_budget :
    (times : List ℕ) (l : RateLimiter) (last : ℕ)
    → InOrder l.updated times last
    → (polls times l).1 * one ≤ l.tokens + (last - l.updated) * l.rate
unfolding polls
polls_budget [] l last h = omega arith
polls_budget (now ∷ times) l last h =
    let l' = (poll now l).0 in
    let (taken, kept, at, same, _) = poll_budget now l in
    let rest : (polls times l').1 * one ≤ l'.tokens + (last - l'.updated) * l'.rate =
      polls_budget times l' last (subst (λ z. InOrder z times last) (sym at) h.1) in
    let span = split_span l.updated now last l.rate h.0 (InOrder-le now times last h.1) in
    let product : (last - l'.updated) * l'.rate ≡ (last - now) * l.rate = cc in
    elim (Option-cases (poll now l).1) [
      | inl granted ↦ rw (granted, polls) (omega (arith, taken granted, rest, product, span))
      | inr (wait, denied) ↦ rw (denied, polls) (omega (arith, kept, rest, product, span))
    ]

-- A fresh limiter grants no more requests than its capacity and the refill of the time that passed
-- allow: over polls in order of time up to `last`, at most `max(max_qps, 1)` at once and
-- `max(max_qps, 0.01)` for each second since it was made.
pub grants_bounded :
    (start max_qps max_concurrency : ℕ) (times : List ℕ) (last : ℕ)
    → InOrder start times last
    → (polls times (init start max_qps max_concurrency)).1 * one
      ≤ max (max_qps * 1000000) one + (last - start) * max max_qps 1
unfolding init
grants_bounded start max_qps max_concurrency times last h =
    polls_budget times (init start max_qps max_concurrency) last h

-- A poll keeps the tokens within the capacity.
pub poll-tokens-le :
    (now : ℕ) (l : RateLimiter)
    → ((poll now l).0.tokens ≤ l.capacity) × ((poll now l).0.capacity ≡ l.capacity)
unfolding poll
poll-tokens-le now l = (ground arith, ground arith)

wait_covers : (d r : ℕ) → 0 < r → d ≤ wait_for d r * r
unfolding wait_for
wait_covers d r h = grind arith

product_mono : (a b r : ℕ) → a ≤ b → a * r ≤ b * r
product_mono a b r h = grind arith

denied_state :
    (now wait : ℕ) (l : RateLimiter)
    → (poll now l).1 ≡ some wait
    → ((poll now l).0 ≡ record l { tokens = refilled now l; updated = now })
      × (wait ≡ wait_for (one - refilled now l) l.rate)
unfolding poll
denied_state now wait l h = ground arith

granted_poll :
    (now : ℕ) (l : RateLimiter)
    → one ≤ l.capacity
    → one ≤ l.tokens + (now - l.updated) * l.rate
    → (poll now l).1 ≡ none
unfolding poll
granted_poll now l c h = ground arith

-- The sleep is long enough: where nobody else polls meanwhile, the poll after it takes a token.
pub poll_after_wait :
    (now later wait : ℕ) (l : RateLimiter)
    → 0 < l.rate
    → one ≤ l.capacity
    → (poll now l).1 ≡ some wait
    → now + wait ≤ later
    → (poll later (poll now l).0).1 ≡ none
poll_after_wait now later wait l r c h le =
    let (after, length) = denied_state now wait l h in
    let deficit = one - refilled now l in
    let covers : deficit ≤ wait * l.rate = rw length (wait_covers deficit l.rate r) in
    let grows = product_mono wait (later - now) l.rate (omega arith) in
    rw after (
      granted_poll later (record l { tokens = refilled now l; updated = now }) c
        (omega (arith, covers, grows)))
