-- ===== src/Scraping/Cache.antt =====
-- backend/app/scraping/cache.py: the response cache. The Redis client and the module `json` are not
-- part of the repository: they are parameters, with the client's state of any type.
use bandcamp_curate.Base.{
  ap, All, Bool-cases, inl, inr, ltb, ◌+◌, ◌≤◌, Result, ok, raise, invalid, List, [], ◌∷◌, refl,
  ◌∙◌, ℕ, ◌≡◌, Bool, true, false, ◌&&◌, Option, none, some, Text, is_some, codes, same_text, ◌++◌,
  if◌then◌else◌,
}
use bandcamp_curate.Scraping.Gateway.{FetchResult}

-- The JSON object of `_serialize`.
pub record Payload : Type 0 where
  pub url : Text
  pub provider : ℕ
  pub status_code : ℕ
  pub is_ok : Bool
  pub parsing_status : Option Text
  pub entities : Option Text
  pub html : Option Text
  pub quota_remaining : Option ℕ

unfoldable pub serialize : FetchResult → Payload
serialize r = record {
  url = r.url;
  provider = r.provider;
  status_code = r.status_code;
  is_ok = r.is_ok;
  parsing_status = r.parsing_status;
  entities = r.entities;
  html = r.html;
  quota_remaining = r.quota_remaining;
}

unfoldable pub deserialize : Payload → FetchResult
deserialize p = record {
  url = p.url;
  provider = p.provider;
  status_code = p.status_code;
  is_ok = p.is_ok;
  parsing_status = p.parsing_status;
  entities = p.entities;
  html = p.html;
  raw = none;
  quota_remaining = p.quota_remaining;
  latency_ms = none;
  from_cache = true;
}

-- `parsed_ok` of backend/app/scraping/base.py.
abbrev is_success : Option Text → Bool
is_success none = false
is_success (some s) = same_text s (codes "success")

unfoldable pub parsed_ok : FetchResult → Bool
parsed_ok r = r.is_ok && (is_success r.parsing_status && is_some r.entities)

-- `FetchRequest.cache_key`: the parser's name or "raw", the URL, and the digest of `extra` where
-- there is one. The digest is `hashlib`'s, so it is given with the request.
pub record CacheRequest : Type 0 where
  pub url : Text
  pub parser_name : Option Text
  pub extra_digest : Option Text

abbrev name_or_raw : Option Text → Text
name_or_raw none = codes "raw"
name_or_raw (some n) = if same_text n (codes "") then codes "raw" else n

abbrev with_digest : Text → Option Text → Text
with_digest key none = key
with_digest key (some d) = key ++ (codes "::" ++ d)

unfoldable pub cache_key : CacheRequest → Text
cache_key r = with_digest (name_or_raw r.parser_name ++ (codes "::" ++ r.url)) r.extra_digest

-- `RedisCache._key`
unfoldable pub redis_key : Text → CacheRequest → Text
unfolding cache_key
redis_key namespace r = namespace ++ (codes ":" ++ cache_key r)

-- The Redis client: `GET` at a time and `SET` with an expiry in seconds, on a state of any type.
pub record Redis (S : Type 0) : Type 0 where
  pub get_at : ℕ → Text → S → Option Text
  pub set_at : ℕ → Text → Text → ℕ → S → S

-- The module `json`; a text that is no payload raises.
pub record Json : Type 0 where
  pub dumps : Payload → Text
  pub loads : Text → Option Payload

pub record RedisCache : Type 0 where
  pub ttl : ℕ
  pub namespace : Text

module _ {S : Type 0} (redis : Redis S) (json : Json) (cache : RedisCache) where
  -- What `get` does with the client's answer.
  unfoldable pub from_payload : Option Text → Result (Option FetchResult)
  unfolding deserialize
  from_payload none = ok none
  from_payload (some payload) = elim (json.loads payload) [
    | none ↦ raise invalid
    | some p ↦ ok (some (deserialize p))
  ]

  -- `RedisCache.get` at a time.
  unfoldable pub get : ℕ → CacheRequest → S → Result (Option FetchResult)
  unfolding redis_key from_payload
  get now r s = from_payload (redis.get_at now (redis_key cache.namespace r) s)

  -- `RedisCache.set` at a time.
  unfoldable pub set : ℕ → CacheRequest → FetchResult → S → S
  unfolding redis_key serialize parsed_ok
  set now r result s =
      if parsed_ok result
      then redis.set_at now (redis_key cache.namespace r) (json.dumps (serialize result)) cache.ttl
          s
      else s

  -- A `set` in a history: its time, the request and the result.
  pub record Write : Type 0 where
    pub at : ℕ
    pub request : CacheRequest
    pub result : FetchResult

  -- What is left of a history of `set`s, the latest first.
  unfoldable pub filled : S → List Write → S
  unfolding set
  filled s [] = s
  filled s (w ∷ history) = set w.at w.request w.result (filled s history)

  -- A result as it comes back from the cache: without what a payload does not keep, and marked.
  unfoldable pub recalled : FetchResult → FetchResult
  recalled result = record result { raw = none; latency_ms = none; from_cache = true }

  -- Whether a write stores its result under the key of a request.
  unfoldable pub answers : Write → CacheRequest → Bool
  unfolding parsed_ok redis_key
  answers w q =
      parsed_ok w.result
      && same_text (redis_key cache.namespace q) (redis_key cache.namespace w.request)

  -- The latest result of the history that was stored under the key of a request, if it has not
  -- expired; `before` where there is none.
  unfoldable pub latest :
      ℕ → CacheRequest → List Write → Result (Option FetchResult) → Result (Option FetchResult)
  unfolding answers recalled
  latest now q [] before = before
  latest now q (w ∷ history) before =
      let earlier = latest now q history before in
      if answers w q
      then (if ltb now (w.at + cache.ttl) then ok (some (recalled w.result)) else ok none)
      else earlier

  get-set :
      (now : ℕ) (w : Write) (q : CacheRequest) (s : S)
      → ((key : Text) (value : Text)
          → redis.get_at now key
              (redis.set_at w.at (redis_key cache.namespace w.request) value cache.ttl s)
            ≡ (if same_text key (redis_key cache.namespace w.request)
                then (if ltb now (w.at + cache.ttl) then some value else none)
                else redis.get_at now key s))
      → json.loads (json.dumps (serialize w.result)) ≡ some (serialize w.result)
      → get now q (set w.at w.request w.result s) ≡ latest now q (w ∷ []) (get now q s)
  unfolding get set latest answers recalled from_payload serialize deserialize
  get-set now w q s keeps reads = elim (Bool-cases (parsed_ok w.result)) [
    | inr e ↦ rw e refl
    | inl e ↦
        let there = keeps (redis_key cache.namespace q) (json.dumps (serialize w.result)) in
        let key = same_text (redis_key cache.namespace q) (redis_key cache.namespace w.request) in
        elim (Bool-cases key) [
          | inr other ↦ rw (e, there, other) refl
          | inl same ↦ elim (Bool-cases (ltb now (w.at + cache.ttl))) [
            | inl alive ↦ rw (e, there, same, alive) (rw reads refl)
            | inr gone ↦ rw (e, there, same, gone) refl
          ]
        ]
  ]

  -- With a client whose `SET` with an expiry gives the value for so many seconds and nothing after
  -- them, and changes no other key, and a JSON text that is read back as it was written: at a time
  -- after any history of `set`s, a `get` gives back the latest result that was stored under its key
  -- and had parsed, with the fields that a payload does not keep cleared and marked as cached, if
  -- less than the time to live has passed since, and nothing if more has. Where nothing was stored
  -- under the key, it answers as before the history.
  pub get-filled :
      (now : ℕ) (q : CacheRequest) (history : List Write) (s : S)
      → ((at : ℕ) (key key' value : Text) (ttl : ℕ) (t : S)
          → at ≤ now
          → redis.get_at now key (redis.set_at at key' value ttl t) ≡ (
              if same_text key key'
              then (if ltb now (at + ttl) then some value else none)
              else redis.get_at now key t))
      → ((p : Payload) → json.loads (json.dumps p) ≡ some p)
      → All (λ (w : Write). w.at ≤ now) history
      → get now q (filled s history) ≡ latest now q history (get now q s)
  unfolding filled latest
  get-filled now q [] s keeps reads past = refl
  get-filled now q (w ∷ history) s keeps reads past =
      get-set now w q (filled s history)
        (λ key value.
          keeps w.at key (redis_key cache.namespace w.request) value cache.ttl (filled s history)
            past.0)
        (reads (serialize w.result))
      ∙ ap (λ before. latest now q (w ∷ []) before) (get-filled now q history s keeps reads past.1)
