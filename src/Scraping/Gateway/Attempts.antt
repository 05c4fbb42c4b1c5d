-- ===== src/Scraping/Gateway/Attempts.antt =====
-- What `_try_provider` of backend/app/scraping/gateway.py makes of the replies of one provider.
use bandcamp_curate.Base.{
  length-snoc, subst, ℕ, zero, suc, ◌+◌, ◌≤◌, ◌<◌, ◌≡◌, refl, ◌⊎◌, inl, inr, Bool, true, false,
  Option, none, some, arith, length,
}
use bandcamp_curate.Scraping.Gateway.{
  retry_failed, retry_limited, conclude, try_provider, FetchResult, ScraperError, auth_error,
  quota_exhausted, rate_limited, provider_error, Reply, success, denied, exhausted, limited, failed,
  Provider, Config, Gateway, try_from,
}

-- The pair that a reply stands for, when the provider is not asked again.
unfoldable pub outcome_of : Reply → Option FetchResult × Option ScraperError
outcome_of (success r) = (some r, none)
outcome_of denied = (none, some auth_error)
outcome_of exhausted = (none, some quota_exhausted)
outcome_of (limited after) = (none, some (rate_limited after))
outcome_of (failed code) = (none, some (provider_error code))

-- A rate limit or a transient failure: the same provider may be asked again.
unfoldable pub is_retryable : Reply → Bool
is_retryable (limited _) = true
is_retryable (failed _) = true
is_retryable _ = false

-- What a sequence of attempts came to: `k` retryable replies from `attempt` on, then the reply that
-- decides; one usage event for each of the `k + 1` calls.
pub record Decides (c : Config) (p : Provider) (left attempt : ℕ) (g : Gateway) (k : ℕ)
    : Type 0 where
  pub within : k ≤ left
  pub outcome : (try_from c p left attempt g).0 ≡ outcome_of (p.replies (attempt + k))
  pub final : (k ≡ left) ⊎ (is_retryable (p.replies (attempt + k)) ≡ false)
  pub earlier : (j : ℕ) → j < k → is_retryable (p.replies (attempt + j)) ≡ true
  pub calls : length (try_from c p left attempt g).1.usage ≡ length g.usage + suc k

earlier_suc :
    (p : Provider) (attempt k : ℕ)
    → is_retryable (p.replies attempt) ≡ true
    → ((j : ℕ) → j < k → is_retryable (p.replies (suc attempt + j)) ≡ true)
    → (j : ℕ) → j < suc k
    → is_retryable (p.replies (attempt + j)) ≡ true
earlier_suc p attempt k again rest zero h =
    let e : attempt ≡ attempt + 0 = omega arith in
    subst (λ i. is_retryable (p.replies i) ≡ true) e again
earlier_suc p attempt k again rest (suc j) h =
    let e : suc attempt + j ≡ attempt + suc j = omega arith in
    subst (λ i. is_retryable (p.replies i) ≡ true) e (rest j (omega arith))

Decides-suc :
    (c : Config) (p : Provider) (left attempt : ℕ) (g g' : Gateway) (k : ℕ)
    → is_retryable (p.replies attempt) ≡ true
    → try_from c p (suc left) attempt g ≡ try_from c p left (suc attempt) g'
    → length g'.usage ≡ length g.usage + 1
    → Decides c p left (suc attempt) g' k
    → Decides c p (suc left) attempt g (suc k)
Decides-suc c p left attempt g g' k again step len d =
    let at : suc attempt + k ≡ attempt + suc k = omega arith in
    record {
      within = omega arith;
      outcome = rw step (
          subst (λ i. (try_from c p left (suc attempt) g').0 ≡ outcome_of (p.replies i)) at
            d.outcome);
      final = elim d.final [
        | inl spent ↦ inl (omega arith)
        | inr stops ↦ inr (subst (λ i. is_retryable (p.replies i) ≡ false) at stops)
      ];
      earlier = earlier_suc p attempt k again d.earlier;
      calls = rw step (omega (arith, d.calls));
    }

-- The attempt decides at once.
Decides-zero :
    (c : Config) (p : Provider) (left attempt : ℕ) (g : Gateway)
    → (try_from c p left attempt g).0 ≡ outcome_of (p.replies attempt)
    → (left ≡ 0) ⊎ (is_retryable (p.replies attempt) ≡ false)
    → length (try_from c p left attempt g).1.usage ≡ length g.usage + 1
    → Decides c p left attempt g 0
Decides-zero c p left attempt g out stop len =
    let e : attempt ≡ attempt + 0 = omega arith in
    record {
      within = omega arith;
      outcome = subst (λ i. (try_from c p left attempt g).0 ≡ outcome_of (p.replies i)) e out;
      final = elim stop [
        | inl spent ↦ inl (omega arith)
        | inr stops ↦ inr (subst (λ i. is_retryable (p.replies i) ≡ false) e stops)
      ];
      earlier = λ j h. absurd (omega arith);
      calls = len;
    }

pub conclude_once :
    (p : Provider) (now : ℕ) (r : Reply) (g : Gateway)
    → ((conclude p now r g).0 ≡ outcome_of r)
      × (length (conclude p now r g).1.usage ≡ length g.usage + 1)
unfolding conclude outcome_of
conclude_once p now (success r) g = (refl, length-snoc g.usage _)
conclude_once p now denied g = (refl, length-snoc g.usage _)
conclude_once p now exhausted g = (refl, length-snoc g.usage _)
conclude_once p now (limited after) g = (refl, length-snoc g.usage _)
conclude_once p now (failed code) g = (refl, length-snoc g.usage _)

-- Where a retry is left: an attempt concludes, or it is followed by the next one.
abbrev pub Moves : Config → Provider → ℕ → ℕ → Gateway → Reply → Type 0
Moves c p left attempt g r =
    ((is_retryable r ≡ false)
      × (try_from c p (suc left) attempt g ≡ conclude p (p.replied_at attempt) r g))
    ⊎ ((is_retryable r ≡ true)
        × ((g' : Gateway) × (try_from c p (suc left) attempt g ≡ try_from c p left (suc attempt) g')
            × (length g'.usage ≡ length g.usage + 1)))

pub try_from-Moves :
    (c : Config) (p : Provider) (left attempt : ℕ) (g : Gateway) (r : Reply)
    → p.replies attempt ≡ r
    → Moves c p left attempt g r
unfolding try_from is_retryable
try_from-Moves c p left attempt g (success r) e = inl (refl, rw (e, try_from))
try_from-Moves c p left attempt g denied e = inl (refl, rw (e, try_from))
try_from-Moves c p left attempt g exhausted e = inl (refl, rw (e, try_from))
try_from-Moves c p left attempt g (limited after) e =
    inr (refl, (retry_limited c p after g, rw (e, try_from), length-snoc g.usage _))
try_from-Moves c p left attempt g (failed code) e = inr (
  refl,
  (retry_failed c p (p.replied_at attempt) code g, rw (e, try_from), length-snoc g.usage _),
)

-- Every run of attempts from any attempt number comes to a decision.
pub try_from-Decides :
    (c : Config) (p : Provider) (left attempt : ℕ) (g : Gateway)
    → (k : ℕ) × Decides c p left attempt g k
try_from-Decides c p zero attempt g =
    let (out, len) = conclude_once p (p.replied_at attempt) (p.replies attempt) g in
    (0, Decides-zero c p 0 attempt g (unfold try_from in out) (inl refl) (unfold try_from in len))
try_from-Decides c p (suc left) attempt g =
    let r = p.replies attempt in
    elim (try_from-Moves c p left attempt g r refl) [
      | inl (stop, step) ↦
          let (out, len) = conclude_once p (p.replied_at attempt) r g in
          (0, Decides-zero c p (suc left) attempt g (rw step out) (inr stop) (rw step len))
      | inr (again, (g', step, len)) ↦
          let (k, d) = try_from-Decides c p left (suc attempt) g' in
          (suc k, Decides-suc c p left attempt g g' k again step len d)
    ]

-- One provider is called at least once and at most `max_retries + 1` times, each call is logged
-- once; all replies before the last are rate limits or transient failures, the last is neither or
-- the retries are spent, and it alone decides the result and the error.
pub try_provider-Decides :
    (c : Config) (p : Provider) (g : Gateway)
    → (k : ℕ) × (k ≤ c.max_retries)
      × ((try_provider c p g).0 ≡ outcome_of (p.replies k))
      × ((k ≡ c.max_retries) ⊎ (is_retryable (p.replies k) ≡ false))
      × ((j : ℕ) → j < k → is_retryable (p.replies j) ≡ true)
      × (length (try_provider c p g).1.usage ≡ length g.usage + suc k)
unfolding try_provider
try_provider-Decides c p g =
    let (k, d) = try_from-Decides c p c.max_retries 0 g in
    let e : 0 + k ≡ k = omega arith in
    (
      k,
      d.within,
      subst (λ i. (try_from c p c.max_retries 0 g).0 ≡ outcome_of (p.replies i)) e d.outcome,
      subst (λ i. (k ≡ c.max_retries) ⊎ (is_retryable (p.replies i) ≡ false)) e d.final,
      λ j h.
          let z : 0 + j ≡ j = omega arith in
          subst (λ i. is_retryable (p.replies i) ≡ true) z (d.earlier j h),
      d.calls,
    )
