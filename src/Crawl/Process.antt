-- ===== src/Crawl/Process.antt =====
-- `_reuse_if_already_crawled` and `process_entry` of backend/app/crawl/runner.py: an entry that
-- another scan has crawled is completed from the stored rows, the others by their kind.
pub mod Reuse
use bandcamp_curate.Base.{
  ℕ, Bool, true, false, ◌&&◌, not, Option, none, some, List, if◌then◌else◌, Text, same_text, Result,
  ok, raise, unsupported,
}
use bandcamp_curate.Frontier.Tables.{
  CrawlKind, fan_collection, album, track, supporters, Entry, Table,
}
use bandcamp_curate.Frontier.Marks.{completed_elsewhere}
use bandcamp_curate.Graph.Tables.{Graph, Workers}
use bandcamp_curate.Crawl.Database.{CrawlOutcome}
use bandcamp_curate.Crawl.Fanout.{within_depth}
use bandcamp_curate.Crawl.Replay.{Seed, FanCounts, none_yet, replay_fanout}
use bandcamp_curate.Crawl.Visit.{Clients, Visit, VisitArgs, pages_per_visit}
use bandcamp_curate.Crawl.Visit.Collection.{crawl_fan_collection}
use bandcamp_curate.Crawl.Pages.{PageClients, PageArgs, CrawlState, crawl_album, crawl_track}

-- The arguments of `process_entry` but the entry, the time, the cap setting and the other workers.
-- The two `seed_fan_id`s are as the caller passes them.
pub record ProcessArgs : Type 0 where
  pub seed : Seed
  pub max_depth : Option ℕ
  pub now : ℕ
  pub setting : Option ℕ
  pub workers : Workers

-- `entry.url == seed_url`
unfoldable pub is_owner_page : ProcessArgs → Entry → Bool
is_owner_page a e = elim a.seed.url [ none ↦ false | some url ↦ same_text e.url url ]

unfoldable pub visit_args : ProcessArgs → Entry → VisitArgs
unfolding is_owner_page
visit_args a e = record {
  url = e.url;
  is_me = is_owner_page a e;
  depth = e.depth;
  max_depth = a.max_depth;
  seed_fan_id = a.seed.fan_id;
  cursor = e.cursor;
  pages_per_visit = pages_per_visit;
  entry = some e.id;
  scan_id = e.scan_id;
  now = a.now;
  setting = a.setting;
  workers = a.workers;
}

unfoldable pub page_args : ProcessArgs → Entry → PageArgs
page_args a e = record {
  url = e.url;
  depth = e.depth;
  max_depth = a.max_depth;
  seed = a.seed;
  scan_id = e.scan_id;
  now = a.now;
  setting = a.setting;
  workers = a.workers;
}

-- The replay, where the children are within the depth limit.
unfoldable pub replayed : ProcessArgs → Entry → Graph → Table → Result FanCounts × Table
unfolding within_depth replay_fanout
replayed a e g t =
    if within_depth e.depth a.max_depth
    then replay_fanout a.now a.setting e.scan_id e.depth a.seed e.url e.kind g t
    else (ok none_yet, t)

-- The outcome of a reuse.
unfoldable pub reused_outcome : Entry → ℕ → CrawlOutcome
reused_outcome e enqueued = record {
  url = e.url;
  kind = e.kind;
  items = 0;
  tracks = 0;
  supporters = 0;
  enqueued = enqueued;
  skipped_followed = 0;
  skipped_self = 0;
  reused = true;
  fan_id = none;
  cursor = none;
}

-- Whether `_reuse_if_already_crawled` has something to reuse.
unfoldable pub is_reusable : ProcessArgs → Entry → Table → Bool
unfolding is_owner_page completed_elsewhere
is_reusable a e t = not (is_owner_page a e) && completed_elsewhere e.url e.kind e.scan_id t.rows

module _ {N : Type 0} where
  unfoldable pub after_replay :
      Entry → CrawlState N → Result FanCounts × Table → Result CrawlOutcome × CrawlState N
  unfolding reused_outcome
  after_replay e s (raise x, t) = (raise x, s)
  after_replay e s (ok n, t) = (ok (reused_outcome e n.enqueued), record s { frontier = t })

  -- `_reuse_if_already_crawled`: none where there is nothing to reuse.
  unfoldable pub reuse_if_already_crawled :
      ProcessArgs → Entry → CrawlState N → Option (Result CrawlOutcome × CrawlState N)
  unfolding is_reusable replayed after_replay
  reuse_if_already_crawled a e s =
      if is_reusable a e s.frontier
      then some (after_replay e s (replayed a e s.graph s.frontier))
      else none

  abbrev pub store_of : Result CrawlOutcome × Visit N → Result CrawlOutcome × CrawlState N
  store_of (r, s) = (r, record { frontier = s.frontier; graph = s.graph; net = s.net })

  -- The crawl of an entry by its kind.
  unfoldable pub crawl_by_kind :
      Clients N
      → PageClients N
      → ProcessArgs
      → Entry
      → CrawlKind
      → CrawlState N
      → Result CrawlOutcome × CrawlState N
  unfolding crawl_fan_collection crawl_album crawl_track visit_args page_args
  crawl_by_kind fans pages a e fan_collection s =
      store_of (crawl_fan_collection fans (visit_args a e) s.frontier s.graph s.net)
  crawl_by_kind fans pages a e album s = crawl_album pages (page_args a e) s
  crawl_by_kind fans pages a e track s = crawl_track pages (page_args a e) s
  crawl_by_kind fans pages a e supporters s = (raise unsupported, s)

  -- `process_entry`
  unfoldable pub process_entry :
      Clients N
      → PageClients N
      → ProcessArgs
      → Entry
      → CrawlState N
      → Result CrawlOutcome × CrawlState N
  unfolding reuse_if_already_crawled crawl_by_kind
  process_entry fans pages a e s = elim (reuse_if_already_crawled a e s) [
    | some r ↦ r
    | none ↦ crawl_by_kind fans pages a e e.kind s
  ]
