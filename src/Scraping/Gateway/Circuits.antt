-- ===== src/Scraping/Gateway/Circuits.antt =====
-- What `_try_provider` of backend/app/scraping/gateway.py does to the circuit breakers.
use bandcamp_curate.Base.{
  ℕ, zero, suc, ◌≡◌, refl, ◌∙◌, true, false, Option, none, some, arith, ◌==◌, ==_iff, is_some,
}
use bandcamp_curate.Scraping.Circuit.{record_success, open_circuit}
use bandcamp_curate.Scraping.Gateway.{
  FetchResult, ScraperError, quota_exhausted, Reply, success, denied, exhausted, limited, failed,
  Provider, Config, Gateway, conclude, retry_limited, retry_failed, try_from,
}

-- The circuits after the attempts.
pub record Circuits (p : Provider) (g : Gateway)
    (r : (Option FetchResult × Option ScraperError) × Gateway) : Type 0 where
  pub others : (n : ℕ) → (n == p.name) ≡ false → r.1.breakers n ≡ g.breakers n
  pub after_success :
      is_some r.0.0 ≡ true
      → ((r.1.breakers p.name).failures ≡ 0) × ((r.1.breakers p.name).opened_at ≡ none)
  pub after_quota :
      r.0.1 ≡ some quota_exhausted
      → (k : ℕ) × ((r.1.breakers p.name).opened_at ≡ some (p.replied_at k))

Circuits-conclude :
    (p : Provider) (attempt : ℕ) (r : Reply) (g : Gateway)
    → Circuits p g (conclude p (p.replied_at attempt) r g)
unfolding conclude record_success open_circuit
Circuits-conclude p attempt (success r) g = record {
  others = λ n ne. rw ne;
  after_success = λ h. ground (arith, ==_iff p.name p.name);
  after_quota = λ h. cc;
}
Circuits-conclude p attempt denied g = record {
  others = λ n ne. refl;
  after_success = λ h. cc;
  after_quota = λ h. absurd (ground (arith, h));
}
Circuits-conclude p attempt exhausted g = record {
  others = λ n ne. rw ne;
  after_success = λ h. cc;
  after_quota = λ h. (attempt, ground (arith, ==_iff p.name p.name));
}
Circuits-conclude p attempt (limited after) g = record {
  others = λ n ne. rw ne;
  after_success = λ h. cc;
  after_quota = λ h. absurd (ground (arith, h));
}
Circuits-conclude p attempt (failed code) g = record {
  others = λ n ne. rw ne;
  after_success = λ h. cc;
  after_quota = λ h. absurd (ground (arith, h));
}

Circuits-step :
    (p : Provider) (g g' : Gateway) (r r' : (Option FetchResult × Option ScraperError) × Gateway)
    → r ≡ r'
    → ((n : ℕ) → (n == p.name) ≡ false → g'.breakers n ≡ g.breakers n)
    → Circuits p g' r'
    → Circuits p g r
Circuits-step p g g' r r' e same h = rw e (record {
  others = λ n ne. h.others n ne ∙ same n ne;
  after_success = h.after_success;
  after_quota = h.after_quota;
})

try_from-Circuits_at :
    (c : Config) (p : Provider) (left attempt : ℕ) (g : Gateway) (r : Reply)
    → p.replies attempt ≡ r
    → ((g' : Gateway) → Circuits p g' (try_from c p left (suc attempt) g'))
    → Circuits p g (try_from c p (suc left) attempt g)
unfolding try_from
try_from-Circuits_at c p left attempt g (success r) e ih =
    rw (e, try_from) (Circuits-conclude p attempt (success r) g)
try_from-Circuits_at c p left attempt g denied e ih =
    rw (e, try_from) (Circuits-conclude p attempt denied g)
try_from-Circuits_at c p left attempt g exhausted e ih =
    rw (e, try_from) (Circuits-conclude p attempt exhausted g)
try_from-Circuits_at c p left attempt g (limited after) e ih =
    Circuits-step p g (retry_limited c p after g) _ _ (rw (e, try_from)) (λ n ne. refl)
      (ih (retry_limited c p after g))
try_from-Circuits_at c p left attempt g (failed code) e ih =
    Circuits-step p g (retry_failed c p (p.replied_at attempt) code g) _ _ (rw (e, try_from))
      (λ n ne. rw ne) (ih (retry_failed c p (p.replied_at attempt) code g))

-- Whatever the replies: the attempts leave every other provider's circuit alone, a result closes
-- the provider's circuit, and a quota error opens it at the time of a reply.
pub try_from-Circuits :
    (c : Config) (p : Provider) (left attempt : ℕ) (g : Gateway)
    → Circuits p g (try_from c p left attempt g)
try_from-Circuits c p zero attempt g =
    unfold try_from in Circuits-conclude p attempt (p.replies attempt) g
try_from-Circuits c p (suc left) attempt g =
    try_from-Circuits_at c p left attempt g (p.replies attempt) refl
      (try_from-Circuits c p left (suc attempt))
