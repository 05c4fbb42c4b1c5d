-- ===== src/Crawl/Visit/Collection.antt =====
-- `crawl_fan_collection` of backend/app/crawl/service.py as a whole: the first visit, which renders
-- the fan page, or a resumed one, and then the pages of the budget.
use bandcamp_curate.Base.{
  ℕ, Bool, true, false, Option, none, some, [], find, leb, if◌then◌else◌, Text, Result, ok, raise,
  invalid,
}
use bandcamp_curate.Frontier.Tables.{fan_collection, Cursor, Table}
use bandcamp_curate.Graph.Tables.{FanCollection, FanRow, Graph}
use bandcamp_curate.Graph.Fans.{get_or_create_fan, has_fan_id}
use bandcamp_curate.Crawl.Database.{CrawlOutcome}
use bandcamp_curate.Crawl.Fanout.{FollowedBands, followed_bands, next_token}
use bandcamp_curate.Crawl.Visit.{
  followed_filter_min_depth, Clients, Visit, VisitArgs, snapshot, absorb, absorb_follows,
  visit_pages,
}

-- `EMPTY_FOLLOWS`
abbrev empty_follows : FollowedBands
empty_follows = record { band_ids = []; hosts = [] }

-- The follows that the filter uses.
unfoldable pub filter_of : ℕ → Option ℕ → Graph → FollowedBands
unfolding followed_bands
filter_of depth none g = empty_follows
filter_of depth (some fan) g =
    if leb followed_filter_min_depth depth
    then followed_bands fan g.follows g.bands.rows
    else empty_follows

abbrev if_me : Bool → Option Text → Option Text
if_me true token = token
if_me false token = none

-- The tokens after the pages that the fan page embeds.
unfoldable pub first_tokens : Bool → FanCollection → Cursor
unfolding next_token
first_tokens is_me page = record {
  fan_id = page.fan.fan_id;
  collection = next_token none page.last_token page.more_available;
  wishlist = if_me is_me (next_token none page.wishlist_last_token page.wishlist_more_available);
  follows = if_me is_me (next_token none page.follows_last_token page.follows_more_available);
}

-- The tokens of a resumed visit; a first one has none until its page is read.
unfoldable pub start_tokens : Option Cursor → Cursor
start_tokens none = record { fan_id = 0; collection = none; wishlist = none; follows = none }
start_tokens (some c) = c

module _ {N : Type 0} where
  -- `if is_me:` after the first page of items.
  unfoldable pub absorb_mine :
      VisitArgs → FollowedBands → FanRow → FanCollection → Visit N → Result FanRow × Visit N
  unfolding absorb absorb_follows
  absorb_mine a followed fan page s =
      let s' = (absorb a followed fan.id true page.wishlist s.tokens s).1 in
      let s'' = (absorb_follows a fan.id page.follows s'.tokens s').1 in
      if a.is_me then (ok fan, s'') else (ok fan, s)

  -- After the first page of items; an error takes the fan's row with it, back to `before`.
  unfoldable pub after_first :
      VisitArgs
      → FollowedBands
      → FanRow
      → FanCollection
      → Visit N
      → Result (Unit {0}) × Visit N
      → Result FanRow × Visit N
  unfolding absorb_mine
  after_first a followed fan page before (raise e, s) = (raise e, before)
  after_first a followed fan page before (ok u, s) = absorb_mine a followed fan page s

  unfoldable pub with_fan :
      VisitArgs
      → FollowedBands
      → FanCollection
      → Visit N
      → Result FanRow × Graph
      → Result FanRow × Visit N
  unfolding after_first absorb first_tokens
  with_fan a followed page before (raise e, g) = (raise e, before)
  with_fan a followed page before (ok fan, g) = after_first a followed fan page before (
      absorb a followed fan.id false page.items (first_tokens a.is_me page)
        (record before { graph = g }))

  -- The first visit up to the loops: `page` is what the render and the parser give.
  unfoldable pub open_page :
      VisitArgs → FollowedBands → Result FanCollection × N → Visit N → Result FanRow × Visit N
  unfolding with_fan get_or_create_fan
  open_page a followed (raise e, net) s = (raise e, record s { net = net })
  open_page a followed (ok page, net) s =
      with_fan a followed page (record s { net = net })
        (get_or_create_fan a.workers page.fan.fan_id page.fan.username page.fan.name page.fan.url
          a.is_me s.graph)

  -- `if cursor:`, a resumed visit, whose tokens are the cursor's.
  unfoldable pub resume : Cursor → Visit N → Result FanRow × Visit N
  resume c s = elim (find (has_fan_id c.fan_id) s.graph.fans.rows) [
    | none ↦ (raise invalid, s)
    | some fan ↦ (ok fan, s)
  ]

  unfoldable pub open_visit :
      Clients N → VisitArgs → FollowedBands → Option Cursor → Visit N → Result FanRow × Visit N
  unfolding open_page resume
  open_visit clients a followed none s = open_page a followed (clients.fan_page a.url s.net) s
  open_visit clients a followed (some c) s = resume c s

  -- What the visit returns after its loops.
  unfoldable pub outcome_of :
      VisitArgs → FanRow → Result ℕ × Visit N → Result CrawlOutcome × Visit N
  unfolding snapshot
  outcome_of a fan (raise e, s) = (raise e, s)
  outcome_of a fan (ok left, s) = (
    ok (record {
      url = a.url;
      kind = fan_collection;
      items = s.ingested;
      tracks = 0;
      supporters = 0;
      enqueued = s.enqueued;
      skipped_followed = s.skips;
      skipped_self = 0;
      reused = false;
      fan_id = some fan.id;
      cursor = snapshot s.tokens;
    }),
    s,
  )

  unfoldable pub after_open :
      Clients N
      → VisitArgs
      → FollowedBands
      → Result FanRow × Visit N
      → Result CrawlOutcome × Visit N
  unfolding outcome_of visit_pages
  after_open clients a followed (raise e, s) = (raise e, s)
  after_open clients a followed (ok fan, s) =
      outcome_of a fan (visit_pages clients a followed fan.id a.pages_per_visit s)

  -- `crawl_fan_collection`
  unfoldable pub crawl_fan_collection :
      Clients N → VisitArgs → Table → Graph → N → Result CrawlOutcome × Visit N
  unfolding filter_of start_tokens open_visit after_open
  crawl_fan_collection clients a frontier g net =
      let followed = filter_of a.depth a.seed_fan_id g in
      after_open clients a followed (
        open_visit clients a followed a.cursor (record {
          frontier = frontier;
          graph = g;
          net = net;
          tokens = start_tokens a.cursor;
          ingested = 0;
          enqueued = 0;
          skips = 0;
        }))
