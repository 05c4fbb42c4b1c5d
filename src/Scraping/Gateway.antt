-- ===== src/Scraping/Gateway.antt =====
-- backend/app/scraping/gateway.py: the waterfall of providers behind `fetch`, with the contract of
-- backend/app/scraping/base.py. A provider's backend is not part of the repository: what each of
-- its calls returns, and when, is given with the provider.
pub mod Attempts
pub mod Circuits
pub mod Waterfall
use bandcamp_curate.Base.{
  ℕ, zero, suc, ◌+◌, ◌-◌, ◌≤◌, ◌<◌, ◌≡◌, refl, Bool, true, false, ◌&&◌, Option, none, some, List,
  [], ◌∷◌, ◌++◌, arith, leb, ltb, ◌==◌, if◌then◌else◌, Text, is_some,
}
use bandcamp_curate.Scraping.Circuit
use bandcamp_curate.Scraping.Circuit.{
  CircuitBreaker, allow, record_success, record_failure, open_circuit,
}

-- `FetchResult`; `entities`, `html` and `raw` are kept as texts.
pub record FetchResult : Type 0 where
  pub url : Text
  pub provider : ℕ
  pub status_code : ℕ
  pub is_ok : Bool
  pub parsing_status : Option Text
  pub entities : Option Text
  pub html : Option Text
  pub raw : Option Text
  pub quota_remaining : Option ℕ
  pub latency_ms : Option ℕ
  pub from_cache : Bool

-- The exceptions of backend/app/scraping/base.py. `scraper_error` is the base class, which the
-- waterfall raises when all providers are exhausted.
pub data ScraperError : Type 0 where
  scraper_error : ScraperError
  auth_error : ScraperError
  quota_exhausted : ScraperError
  rate_limited : Option ℕ → ScraperError
  provider_error : Option ℕ → ScraperError

-- What one call of `provider.fetch` ends in: a result, or one of the four errors that it may raise.
pub data Reply : Type 0 where
  success : FetchResult → Reply
  denied : Reply
  exhausted : Reply
  limited : Option ℕ → Reply
  failed : Option ℕ → Reply

-- A provider: the class attributes, and for one `fetch` the time at which its circuit is asked,
-- and the reply and the time of each attempt.
pub record Provider : Type 0 where
  pub name : ℕ
  pub priority : ℕ
  pub cost_per_request : ℕ
  pub supports : Text → Bool
  pub asked_at : ℕ
  pub replies : ℕ → Reply
  pub replied_at : ℕ → ℕ

pub record UsageEvent : Type 0 where
  pub provider : ℕ
  pub is_ok : Bool
  pub status_code : Option ℕ
  pub cost : ℕ
  pub quota_remaining : Option ℕ
  pub latency_ms : Option ℕ

pub record Config : Type 0 where
  pub max_retries : ℕ
  pub default_backoff : ℕ

-- The gateway's own state, the usage log and the sleeps that it made.
pub record Gateway : Type 0 where
  pub breakers : ℕ → CircuitBreaker
  pub usage : List UsageEvent
  pub sleeps : List ℕ

-- `_log`. A failing sink is caught, so a log that fails changes nothing else.
unfoldable pub log : Provider → Bool → Option ℕ → ℕ → Option ℕ → Option ℕ → Gateway → Gateway
log p is_ok status cost quota latency g = record g {
  usage =
      g.usage
      ++ record {
        provider = p.name;
        is_ok = is_ok;
        status_code = status;
        cost = cost;
        quota_remaining = quota;
        latency_ms = latency;
      }
        ∷ [];
}

unfoldable pub on_breaker : ℕ → (CircuitBreaker → CircuitBreaker) → Gateway → Gateway
on_breaker name f g = record g {
  breakers = λ n. if n == name then f (g.breakers n) else g.breakers n;
}

unfoldable pub slept : ℕ → Gateway → Gateway
slept duration g = record g { sleeps = g.sleeps ++ duration ∷ [] }

-- `exc.retry_after or self._default_backoff`: a zero counts as missing.
unfoldable pub backoff : Option ℕ → ℕ → ℕ
backoff none d = d
backoff (some zero) d = d
backoff (some (suc n)) d = suc n

-- The branches of `_try_provider` that return, at the time `now` of the reply. A rate limit and a
-- transient failure return where no retry is left.
unfoldable pub conclude :
    Provider → ℕ → Reply → Gateway → (Option FetchResult × Option ScraperError) × Gateway
unfolding log on_breaker
conclude p now (success r) g = (
  (some r, none),
  log p true (some r.status_code) p.cost_per_request r.quota_remaining r.latency_ms
      (on_breaker p.name record_success g),
)
conclude p now denied g = ((none, some auth_error), log p false (some 401) 0 none none g)
conclude p now exhausted g = (
  (none, some quota_exhausted),
  on_breaker p.name (open_circuit now) (log p false (some 402) 0 none none g),
)
conclude p now (limited after) g = (
  (none, some (rate_limited after)),
  on_breaker p.name (record_failure now) (log p false (some 429) 0 none none g),
)
conclude p now (failed code) g = (
  (none, some (provider_error code)),
  on_breaker p.name (record_failure now) (log p false code 0 none none g),
)

-- What `_try_provider` does before it tries again.
unfoldable pub retry_limited : Config → Provider → Option ℕ → Gateway → Gateway
unfolding log slept backoff
retry_limited c p after g =
    slept (backoff after c.default_backoff) (log p false (some 429) 0 none none g)

unfoldable pub retry_failed : Config → Provider → ℕ → Option ℕ → Gateway → Gateway
unfolding log on_breaker slept
retry_failed c p now code g =
    slept c.default_backoff
      (on_breaker p.name (record_failure now) (log p false code 0 none none g))

-- `_try_provider`: the loop from `attempt` on, with `left` more retries before `max_retries`.
unfoldable pub try_from :
    Config → Provider → ℕ → ℕ → Gateway → (Option FetchResult × Option ScraperError) × Gateway
unfolding conclude retry_limited retry_failed
try_from c p zero attempt g = conclude p (p.replied_at attempt) (p.replies attempt) g
try_from c p (suc left) attempt g = elim (p.replies attempt) [
  | limited after ↦ try_from c p left (suc attempt) (retry_limited c p after g)
  | failed code ↦ try_from c p left (suc attempt) (retry_failed c p (p.replied_at attempt) code g)
  | r ↦ conclude p (p.replied_at attempt) r g
]

unfoldable pub try_provider :
    Config → Provider → Gateway → (Option FetchResult × Option ScraperError) × Gateway
unfolding try_from
try_provider c p g = try_from c p c.max_retries 0 g

-- `sorted(providers, key=…)`, which is stable.
unfoldable pub insert_provider : Provider → List Provider → List Provider
insert_provider p [] = p ∷ []
insert_provider p (q ∷ rest) =
    let later = insert_provider p rest in
    if leb p.priority q.priority then p ∷ q ∷ rest else q ∷ later

unfoldable pub sort_providers : List Provider → List Provider
unfolding insert_provider
sort_providers [] = []
sort_providers (p ∷ rest) = insert_provider p (sort_providers rest)

-- What `fetch` ends in.
pub data Fetched : Type 0 where
  fetched : FetchResult → Fetched
  raised : ScraperError → Fetched

-- Whether the loop of `fetch` passes a provider over.
unfoldable pub skips : Text → Provider → Gateway → Bool
skips url p g =
    if p.supports url then (if allow p.asked_at (g.breakers p.name) then false else true) else true

-- The end of one round of the loop, from what `_try_provider` returned.
unfoldable pub settle :
    Option FetchResult × Option ScraperError → Gateway → Fetched × Gateway → Fetched × Gateway
settle (some r, err) g rest = (fetched r, g)
settle (none, some auth_error) g rest = (raised auth_error, g)
settle (none, err) g rest = rest

-- The loop of `fetch` over the providers that are left.
unfoldable pub waterfall : Config → Text → List Provider → Gateway → Fetched × Gateway
unfolding try_provider skips settle
waterfall c url [] g = (raised scraper_error, g)
waterfall c url (p ∷ rest) g =
    let (outcome, g') = try_provider c p g in
    let on = waterfall c url rest g in
    let on' = waterfall c url rest g' in if skips url p g then on else settle outcome g' on'

-- `fetch`, from what the cache holds for the request. A result that a provider gave is handed to
-- the cache's `set`, which is the third part.
unfoldable pub fetch :
    Config
    → Text
    → Option FetchResult
    → List Provider
    → Gateway
    → (Fetched × Gateway) × Option FetchResult
unfolding waterfall sort_providers
fetch c url (some cached) providers g = ((fetched cached, g), none)
fetch c url none providers g =
    let (r, g') = waterfall c url (sort_providers providers) g in
    ((r, g'), elim r [ fetched x ↦ some x | raised e ↦ none ])
