-- ===== src/Tests/Providers.antt =====
-- Two providers, and the theorems on backend/app/scraping for them.
use bandcamp_curate.Base.{
  ◌∙◌, ◌==◌, same_text, ltb, Option, if◌then◌else◌, ap, Text, Bool, zero, ℕ, suc, ◌<◌, ◌≤◌, ◌+◌,
  ◌-◌, ◌*◌, ◌≡◌, refl, ◌⊎◌, true, false, none, some, List, [], ◌∷◌, codes, length, max, arith,
}
use bandcamp_curate.Scraping.Circuit
use bandcamp_curate.Scraping.Circuit.{
  CircuitBreaker, CircuitState, closed, opened, state, allow, record_success, record_failure,
}
use bandcamp_curate.Scraping.Circuit.Histories.{
  Report, after, since_success, failures_in, opening, allowed, after-allow,
}
use bandcamp_curate.Scraping.RateLimit
use bandcamp_curate.Scraping.RateLimit.{RateLimiter, one, poll, polls}
use bandcamp_curate.Scraping.RateLimit.Bounds.{grants_bounded}
use bandcamp_curate.Scraping.Gateway.{
  FetchResult, Reply, success, exhausted, limited, Provider, Config, Gateway, try_provider,
  waterfall,
}
use bandcamp_curate.Scraping.Gateway.Attempts.{outcome_of, is_retryable, try_provider-Decides}
use bandcamp_curate.Scraping.Gateway.Waterfall.{described, waterfall-described}
use bandcamp_curate.Scraping.Cache.{
  Payload, Redis, Json, RedisCache, Write, CacheRequest, get, filled, latest, get-filled,
}

abbrev page : FetchResult
page = record {
  url = codes "u";
  provider = 2;
  status_code = 200;
  is_ok = true;
  parsing_status = some (codes "success");
  entities = some (codes "{}");
  html = none;
  raw = some (codes "raw");
  quota_remaining = none;
  latency_ms = some 12;
  from_cache = false;
}

abbrev limited_once : ℕ → Reply
limited_once zero = limited (some 3)
limited_once (suc n) = exhausted

-- A provider that is limited, then out of quota; and one that answers.
abbrev first_provider : Provider
first_provider = record {
  name = 1;
  priority = 0;
  cost_per_request = 1;
  supports = λ u. true;
  asked_at = 10;
  replies = limited_once;
  replied_at = λ n. 11 + n;
}

abbrev second_provider : Provider
second_provider = record {
  name = 2;
  priority = 1;
  cost_per_request = 2;
  supports = λ u. true;
  asked_at = 20;
  replies = λ n. success page;
  replied_at = λ n. 21 + n;
}

abbrev retries : Config
retries = record { max_retries = 2; default_backoff = 1 }

abbrev fresh : Gateway
fresh = record { breakers = λ n. Circuit.init 3 60; usage = []; sleeps = [] }

abbrev both : List Provider
both = first_provider ∷ second_provider ∷ []

try_provider-Decides_example :
    (k : ℕ) × (k ≤ 2)
    × ((try_provider retries first_provider fresh).0 ≡ outcome_of (limited_once k))
    × ((k ≡ 2) ⊎ (is_retryable (limited_once k) ≡ false))
    × ((j : ℕ) → j < k → is_retryable (limited_once j) ≡ true)
    × (length (try_provider retries first_provider fresh).1.usage ≡ 0 + suc k)
try_provider-Decides_example = try_provider-Decides retries first_provider fresh

waterfall-described_example :
    (waterfall retries (codes "u") both fresh).0 ≡ described retries (codes "u") both fresh
waterfall-described_example =
    waterfall-described retries (codes "u") both fresh ((refl, tt), (tt, tt))

-- Two failures, a success, and three failures more, the last at 30; the latest comes first.
abbrev history : List Report
history =
    Report.failed 30
    ∷ Report.failed 20
    ∷ Report.failed 10
    ∷ Report.succeeded
    ∷ Report.failed 5
    ∷ Report.failed 4
    ∷ []

after-allow_example :
    allow 80 (after history (Circuit.init 3 60)) ≡ allowed 80 60 (opening 3 history)
after-allow_example = after-allow 3 60 80 history

opens_at_30 : opening 3 history ≡ some 30
unfolding opening since_success failures_in
opens_at_30 = refl

grants_bounded_example :
    (polls (0 ∷ 10 ∷ 20 ∷ []) (RateLimit.init 0 100 2)).1 * one
    ≤ max (100 * 1000000) one + (30 - 0) * max 100 1
grants_bounded_example =
    grants_bounded 0 100 2 (0 ∷ 10 ∷ 20 ∷ []) 30
      (omega arith, (omega arith, (omega arith, omega arith)))

-- An empty bucket that is refilled with one request in a second.
abbrev drained : RateLimiter
drained = record { rate = 100; capacity = 100000000; tokens = 0; updated = 0; permits = 2 }

drained_waits : (poll 0 drained).1 ≡ some 1000000
unfolding poll
drained_waits = refl

abbrev wanted : CacheRequest
wanted = record { url = codes "u"; parser_name = some (codes "album"); extra_digest = none }

abbrev other : CacheRequest
other = record { url = codes "v"; parser_name = none; extra_digest = none }

-- A client that holds its keys with their values and the times at which they end.
abbrev Held : Type 0
Held = Text → Option (Text × ℕ)

abbrev alive : ℕ → Option (Text × ℕ) → Option Text
alive now none = none
alive now (some (value, end)) = if ltb now end then some value else none

abbrev held : Redis Held
held = record {
  get_at = λ now key s. alive now (s key);
  set_at =
      λ at key value ttl s other. if same_text other key then some (value, at + ttl) else s other;
}

-- Texts one after the other, and read back.
line : Text → Text → Text
line [] rest = 0 ∷ rest
line (c ∷ s) rest = suc c ∷ line s rest

abbrev add_letter : ℕ → Text × Text → Text × Text
add_letter c (s, rest) = (c ∷ s, rest)

unline : Text → Text × Text
unline [] = ([], [])
unline (zero ∷ s) = ([], s)
unline (suc c ∷ s) = add_letter c (unline s)

unline-line : (s rest : Text) → unline (line s rest) ≡ (s, rest)
unfolding unline line
unline-line [] rest = refl
unline-line (c ∷ s) rest = ap (add_letter c) (unline-line s rest)

line_or : Option Text → Text → Text
line_or none rest = 0 ∷ rest
line_or (some s) rest = 1 ∷ line s rest

abbrev some_of : Text × Text → Option Text × Text
some_of (s, rest) = (some s, rest)

unline_or : Text → Option Text × Text
unline_or [] = (none, [])
unline_or (zero ∷ s) = (none, s)
unline_or (suc c ∷ s) = some_of (unline s)

unline-line_or : (o : Option Text) (rest : Text) → unline_or (line_or o rest) ≡ (o, rest)
unfolding unline_or line_or
unline-line_or none rest = refl
unline-line_or (some s) rest = ap some_of (unline-line s rest)

abbrev number_or : Option ℕ → Text
number_or none = []
number_or (some n) = n ∷ []

abbrev or_number : Text → Option ℕ
or_number [] = none
or_number (n ∷ s) = some n

abbrev flag : Bool → ℕ
flag true = 1
flag false = 0

abbrev numbers : Payload → Text
numbers p = p.provider ∷ p.status_code ∷ flag p.is_ok ∷ number_or p.quota_remaining

abbrev with_numbers : Text → Option Text → Option Text → Option Text → Text → Option Payload
with_numbers url status entities html (provider ∷ code ∷ fine ∷ quota) = some (record {
  url = url;
  provider = provider;
  status_code = code;
  is_ok = fine == 1;
  parsing_status = status;
  entities = entities;
  html = html;
  quota_remaining = or_number quota;
})
with_numbers url status entities html _ = none

abbrev with_texts : Text → Option Text → Option Text → Option Text × Text → Option Payload
with_texts url status entities (html, rest) = with_numbers url status entities html rest

abbrev with_entities : Text → Option Text → Option Text × Text → Option Payload
with_entities url status (entities, rest) = with_texts url status entities (unline_or rest)

abbrev with_status : Text → Option Text × Text → Option Payload
with_status url (status, rest) = with_entities url status (unline_or rest)

abbrev with_url : Text × Text → Option Payload
with_url (url, rest) = with_status url (unline_or rest)

abbrev lines : Json
lines = record {
  dumps =
      λ p. line p.url (line_or p.parsing_status (line_or p.entities (line_or p.html (numbers p))));
  loads = λ t. with_url (unline t);
}

flag_read : (b : Bool) → (flag b == 1) ≡ b
flag_read true = refl
flag_read false = refl

number_read : (o : Option ℕ) → or_number (number_or o) ≡ o
number_read none = refl
number_read (some n) = refl

with_numbers-numbers :
    (p : Payload) → with_numbers p.url p.parsing_status p.entities p.html (numbers p) ≡ some p
with_numbers-numbers p = rw (flag_read p.is_ok, number_read p.quota_remaining) refl

lines_read : (p : Payload) → lines.loads (lines.dumps p) ≡ some p
lines_read p =
    ap with_url (unline-line p.url _)
    ∙ ap (with_status p.url) (unline-line_or p.parsing_status _)
    ∙ ap (with_entities p.url p.parsing_status) (unline-line_or p.entities _)
    ∙ ap (with_texts p.url p.parsing_status p.entities) (unline-line_or p.html _)
    ∙ with_numbers-numbers p

held_keeps :
    (at : ℕ) (key key' value : Text) (ttl : ℕ) (t : Held)
    → at ≤ 20
    → held.get_at 20 key (held.set_at at key' value ttl t) ≡ (
        if same_text key key'
        then (if ltb 20 (at + ttl) then some value else none)
        else held.get_at 20 key t)
held_keeps at key key' value ttl t past = ground arith

abbrev cache : RedisCache
cache = record { ttl = 15; namespace = codes "bc" }

-- Two results: one at the time 3, which has expired at 20, and one at 9, which has not.
abbrev stored : List (Write held lines cache)
stored =
    record { at = 9; request = wanted; result = page }
    ∷ record { at = 3; request = other; result = page }
    ∷ []

abbrev nothing_held : Held
nothing_held k = none

get-filled_example :
    get held lines cache 20 wanted (filled held lines cache nothing_held stored)
    ≡ latest held lines cache 20 wanted stored (get held lines cache 20 wanted nothing_held)
get-filled_example =
    get-filled held lines cache 20 wanted stored nothing_held held_keeps lines_read
      (omega arith, (omega arith, tt))
