-- ===== src/Crawl/Fanout.antt =====
-- What a page of owned items puts on the frontier: `FollowedBands`, `followed_bands`,
-- `_within_depth`, `_enqueue_items` and `_next_token` of backend/app/crawl/service.py.
pub mod Rows
pub mod Children
pub mod Tallies
use bandcamp_curate.Base.{
  ℕ, suc, ◌+◌, Bool, true, false, ◌&&◌, ◌||◌, not, Option, none, some, List, [], ◌∷◌, ◌==◌, ltb,
  any, if◌then◌else◌, Text, same_text, contains, is_some, Result, ok, raise,
}
use bandcamp_curate.Frontier.Tables.{CrawlKind, Table}
use bandcamp_curate.Frontier.Enqueue.{Job, enqueue}
use bandcamp_curate.Urls.{kind_for_url, url_host}
use bandcamp_curate.Curation.Tables.{opt_in, scalar_set}
use bandcamp_curate.Graph.Tables.{BandRow, FollowRow, ParsedItem}
use bandcamp_curate.Curation.Exclusions.{host_in, hosts_of}

pub record FollowedBands : Type 0 where
  pub band_ids : List ℕ
  pub hosts : List Text

unfoldable pub followed_rows : ℕ → List FollowRow → List BandRow → List BandRow
followed_rows fan follows [] = []
followed_rows fan follows (b ∷ bands) =
    let rest = followed_rows fan follows bands in
    if any (λ (f : FollowRow). (f.fan_id == fan) && (f.band_id == b.id)) follows
    then b ∷ rest
    else rest

unfoldable pub row_urls : List BandRow → List (Option Text)
row_urls [] = []
row_urls (b ∷ rows) = b.url ∷ row_urls rows

unfoldable pub followed_bands : ℕ → List FollowRow → List BandRow → FollowedBands
unfolding followed_rows row_urls hosts_of scalar_set
followed_bands fan follows bands =
    let rows = followed_rows fan follows bands in
    record {
      band_ids = scalar_set (λ (b : BandRow). b.bandcamp_id) rows;
      hosts = hosts_of (row_urls rows);
    }

-- `covers`; where nothing is followed, `__bool__` is false and this is too.
unfoldable pub covers : FollowedBands → ParsedItem → Bool
unfolding host_in url_host
covers f item = opt_in item.band.bandcamp_id f.band_ids || host_in (url_host item.url) f.hosts

unfoldable pub within_depth : ℕ → Option ℕ → Bool
within_depth depth none = true
within_depth depth (some limit) = ltb depth limit

-- Where an item leads: no release page, a page of a followed band, or a page to crawl.
pub data Lead : Type 0 where
  nowhere : Lead
  skipped : Lead
  page : Text → CrawlKind → Lead

abbrev pub lead_by : Bool → Text → Option CrawlKind → Lead
lead_by covered url none = nowhere
lead_by true url (some kind) = skipped
lead_by false url (some kind) = page url kind

-- The tests of one round of the loop, in their order. An empty URL counts as missing.
unfoldable pub lead_of : FollowedBands → ParsedItem → Lead
unfolding covers kind_for_url
lead_of followed item = elim item.url [
  | none ↦ nowhere
  | some url ↦ elim url [
    | [] ↦ nowhere
    | c ∷ rest ↦ lead_by (covers followed item) (c ∷ rest) (kind_for_url (c ∷ rest))
  ]
]

-- The job of a child. The priority is the default of `enqueue`.
unfoldable pub child_job : ℕ → ℕ → Text → CrawlKind → Job
child_job scan_id depth url kind = record {
  scan_id = scan_id;
  url = url;
  kind = kind;
  priority = 0;
  depth = suc depth;
}

-- What the loop has come to: the counts of enqueued and of skipped items.
pub record Counts : Type 0 where
  pub enqueued : ℕ
  pub skips : ℕ

unfoldable pub add_enqueued : Bool → Counts → Counts
add_enqueued true n = record n { enqueued = n.enqueued + 1 }
add_enqueued false n = n

-- What the loop does with an enqueue: an exception leaves it.
unfoldable pub after_enqueue :
    Result Bool × Table → Counts → (Counts → Table → Result Counts × Table) → Result Counts × Table
unfolding add_enqueued
after_enqueue (raise e, t) n next = (raise e, t)
after_enqueue (ok added, t) n next = next (add_enqueued added n) t

-- One round of the loop, and `next` for the rounds after it.
unfoldable pub take_lead :
    ℕ
    → Option ℕ
    → ℕ
    → ℕ
    → Lead
    → Counts
    → Table
    → (Counts → Table → Result Counts × Table)
    → Result Counts × Table
unfolding after_enqueue child_job enqueue
take_lead now setting scan_id depth nowhere n t next = next n t
take_lead now setting scan_id depth skipped n t next = next (record n { skips = n.skips + 1 }) t
take_lead now setting scan_id depth (page url kind) n t next =
    after_enqueue (enqueue now setting t (child_job scan_id depth url kind)) n next

unfoldable pub enqueue_loop :
    ℕ → Option ℕ → ℕ → ℕ → FollowedBands → List ParsedItem → Counts → Table → Result Counts × Table
unfolding lead_of take_lead
enqueue_loop now setting scan_id depth followed [] n t = (ok n, t)
enqueue_loop now setting scan_id depth followed (item ∷ items) n t =
    take_lead now setting scan_id depth (lead_of followed item) n t
      (enqueue_loop now setting scan_id depth followed items)

-- `_enqueue_items`
unfoldable pub enqueue_items :
    ℕ
    → Option ℕ
    → ℕ
    → ℕ
    → Option ℕ
    → FollowedBands
    → List ParsedItem
    → Table
    → Result Counts × Table
unfolding within_depth enqueue_loop
enqueue_items now setting scan_id depth max_depth followed items t =
    let none_yet : Counts = record { enqueued = 0; skips = 0 } in
    if within_depth depth max_depth
    then enqueue_loop now setting scan_id depth followed items none_yet t
    else (ok none_yet, t)

abbrev nonempty : Text → Bool
nonempty [] = false
nonempty (c ∷ s) = true

abbrev is_token : Option Text → Text → Bool
is_token none t = false
is_token (some s) t = same_text s t

-- `_next_token`
unfoldable pub next_token : Option Text → Option Text → Bool → Option Text
next_token current none more = none
next_token current (some t) more =
    if more && (nonempty t && not (is_token current t)) then some t else none
