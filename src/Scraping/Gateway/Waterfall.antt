-- ===== src/Scraping/Gateway/Waterfall.antt =====
-- The loop of `fetch` of backend/app/scraping/gateway.py against a description that keeps no state.
use bandcamp_curate.Base.{
  ap, ℕ, zero, suc, ◌+◌, ◌*◌, ◌≤◌, ◌≡◌, refl, ◌∙◌, ◌⊎◌, inl, inr, false, Option, List, [], ◌∷◌,
  arith, ◌==◌, Text, length, All, if◌then◌else◌, Bool-cases,
}
use bandcamp_curate.Scraping.Gateway.{
  FetchResult, ScraperError, scraper_error, auth_error, Reply, success, denied, Provider, Config,
  Gateway, Fetched, fetched, raised, try_from, try_provider, skips, settle, waterfall,
}
use bandcamp_curate.Scraping.Gateway.Attempts.{
  conclude_once, try_from-Moves, outcome_of, is_retryable, try_provider-Decides,
}
use bandcamp_curate.Scraping.Gateway.Circuits.{try_from-Circuits}

-- The reply that decides a provider: the first that is no reason to ask again, or the last one.
unfoldable pub verdict : (ℕ → Reply) → ℕ → ℕ → Reply
verdict replies zero attempt = replies attempt
verdict replies (suc left) attempt =
    let next = verdict replies left (suc attempt) in
    if is_retryable (replies attempt) then next else replies attempt

-- The description: the first provider in order that is not passed over at the start, and whose
-- deciding reply is a result or a rejected key, decides; with no such provider all are exhausted.
unfoldable pub described : Config → Text → List Provider → Gateway → Fetched
unfolding verdict
described c url [] g = raised scraper_error
described c url (p ∷ rest) g =
    let on = described c url rest g in
    if skips url p g then on else elim (verdict p.replies c.max_retries 0) [
      | success r ↦ fetched r
      | denied ↦ raised auth_error
      | _ ↦ on
    ]

try_from-verdict :
    (c : Config) (p : Provider) (left attempt : ℕ) (g : Gateway)
    → (try_from c p left attempt g).0 ≡ outcome_of (verdict p.replies left attempt)
unfolding verdict
try_from-verdict c p zero attempt g =
    unfold try_from in (conclude_once p (p.replied_at attempt) (p.replies attempt) g).0
try_from-verdict c p (suc left) attempt g =
    elim (try_from-Moves c p left attempt g (p.replies attempt) refl) [
      | inl (stop, step) ↦
          rw (stop, step) (conclude_once p (p.replied_at attempt) (p.replies attempt) g).0
      | inr (again, (g', step, len)) ↦ rw (again, step) (try_from-verdict c p left (suc attempt) g')
    ]

-- The providers have distinct names, as the dictionary of breakers supposes.
abbrev pub DistinctNames : List Provider → Type 0
DistinctNames [] = Unit
DistinctNames (p ∷ rest) = All (λ q. (q.name == p.name) ≡ false) rest × DistinctNames rest

-- The circuits of the providers of a list are the same in two states.
abbrev Agree : Gateway → Gateway → List Provider → Type 0
Agree g g' = All (λ q. g'.breakers q.name ≡ g.breakers q.name)

described-Agree :
    (c : Config) (url : Text) (rest : List Provider) (g g' : Gateway)
    → Agree g g' rest
    → described c url rest g' ≡ described c url rest g
unfolding described skips
described-Agree c url [] g g' a = refl
described-Agree c url (p ∷ rest) g g' a = ground (arith, a.0, described-Agree c url rest g g' a.1)

Agree-try :
    (c : Config) (p : Provider) (g : Gateway) (rest : List Provider)
    → All (λ q. (q.name == p.name) ≡ false) rest
    → Agree g (try_provider c p g).1 rest
unfolding try_provider
Agree-try c p g [] d = tt
Agree-try c p g (q ∷ rest) d =
    ((try_from-Circuits c p c.max_retries 0 g).others q.name d.0, Agree-try c p g rest d.1)

settle-outcome :
    (r : Reply) (g : Gateway) (on : Fetched × Gateway) (rest : Fetched)
    → on.0 ≡ rest
    → (settle (outcome_of r) g on).0
      ≡ elim r [ success x ↦ fetched x | denied ↦ raised auth_error | _ ↦ rest ]
unfolding settle outcome_of
settle-outcome r g on rest h = ground (arith, h)

-- The order of the providers alone decides `fetch`: with distinct names the loop ends as the
-- description says, although each attempt changes the circuits that later rounds consult.
pub waterfall-described :
    (c : Config) (url : Text) (providers : List Provider) (g : Gateway)
    → DistinctNames providers
    → (waterfall c url providers g).0 ≡ described c url providers g
unfolding waterfall described
waterfall-described c url [] g d = refl
waterfall-described c url (p ∷ rest) g d =
    let g' = (try_provider c p g).1 in
    let on = waterfall-described c url rest g d.1 in
    let on' =
      waterfall-described c url rest g' d.1
      ∙ described-Agree c url rest g g' (Agree-try c p g rest d.0) in
    elim (Bool-cases (skips url p g)) [
      | inl skip ↦ rw skip on
      | inr ask ↦
          let decided : (try_provider c p g).0 ≡ outcome_of (verdict p.replies c.max_retries 0) =
            unfold try_provider in try_from-verdict c p c.max_retries 0 g in
          rw ask (
            ap (λ o. (settle o g' (waterfall c url rest g')).0) decided
            ∙ settle-outcome (verdict p.replies c.max_retries 0) g' (waterfall c url rest g')
                (described c url rest g) on')
    ]

settle-state :
    (o : Option FetchResult × Option ScraperError) (g : Gateway) (rest : Fetched × Gateway)
    → ((settle o g rest).1 ≡ g) ⊎ ((settle o g rest).1 ≡ rest.1)
unfolding settle
settle-state o g rest = ground arith

-- A `fetch` that reaches the providers calls each of them at most `max_retries + 1` times.
pub waterfall-usage-le :
    (c : Config) (url : Text) (providers : List Provider) (g : Gateway)
    → length (waterfall c url providers g).1.usage
      ≤ length g.usage + (c.max_retries + 1) * length providers
unfolding waterfall
waterfall-usage-le c url [] g = omega arith
waterfall-usage-le c url (p ∷ rest) g =
    let (k, within, _, _, _, calls) = try_provider-Decides c p g in
    let skipped = waterfall-usage-le c url rest g in
    let asked = waterfall-usage-le c url rest (try_provider c p g).1 in
    elim (Bool-cases (skips url p g)) [
      | inl skip ↦ rw skip (omega (arith, skipped))
      | inr ask ↦
          rw ask
            (elim (settle-state (try_provider c p g).0 (try_provider c p g).1
              (waterfall c url rest (try_provider c p g).1)) [
                | inl now ↦ rw now (omega (arith, within, calls))
                | inr later ↦ rw later (omega (arith, within, calls, asked))
              ])
    ]
