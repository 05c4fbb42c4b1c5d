-- ===== src/Crawl/Pages.antt =====
-- `crawl_album` and `crawl_track` of backend/app/crawl/service.py. The page (its render and
-- backend/app/bandcamp/parse.py) and the client that pages the supporters are arguments; they act on
-- the network, `N`. An exception leaves what the last commit left.
use bandcamp_curate.Base.{
  ℕ, zero, suc, Bool, false, Option, none, some, List, [], ◌∷◌, ◌++◌, if◌then◌else◌, Text,
  same_text, any, find, Result, ok, raise, invalid,
}
use bandcamp_curate.Frontier.Tables.{CrawlKind, album, track, Table}
use bandcamp_curate.Graph.Tables.{Graph, Workers, ParsedAlbum, ParsedTrackPage, ParsedSupporter}
use bandcamp_curate.Graph.Entities.{is_album, is_track}
use bandcamp_curate.Graph.Ingest.{ingest_album, ingest_track_page}
use bandcamp_curate.Graph.Ingest.Supporters.{
  SupporterIngestCounts, ingest_album_supporters, ingest_track_supporters,
}
use bandcamp_curate.Crawl.Database.{CrawlOutcome}
use bandcamp_curate.Crawl.Fanout.{within_depth}
use bandcamp_curate.Crawl.Replay.{Seed, FanRef, FanCounts, none_yet, enqueue_fans}

-- `AlbumSupporters`
pub record SupporterPage : Type 0 where
  pub album_id : Option ℕ
  pub tralbum_type : Text
  pub supporters : List ParsedSupporter
  pub last_token : Option Text
  pub more_available : Bool

-- A page and the list that it embeds.
pub record LoadedPage (A : Type 0) : Type 0 where
  pub page : A
  pub supporters : SupporterPage

pub record PageClients (N : Type 0) : Type 0 where
  pub album_page : Text → N → Result (LoadedPage ParsedAlbum) × N
  pub track_page : Text → N → Result (LoadedPage ParsedTrackPage) × N
  pub iter_supporters : ℕ → Text → Text → N → Result (List ParsedSupporter) × N

pub record PageArgs : Type 0 where
  pub url : Text
  pub depth : ℕ
  pub max_depth : Option ℕ
  pub seed : Seed
  pub scan_id : ℕ
  pub now : ℕ
  pub setting : Option ℕ
  pub workers : Workers

-- The committed tables and the network.
pub record CrawlState (N : Type 0) : Type 0 where
  pub frontier : Table
  pub graph : Graph
  pub net : N

abbrev has_name : Text → ParsedSupporter → Bool
has_name username s = same_text s.username username

-- `if s.username not in seen`
unfoldable pub append_unseen : List ParsedSupporter → List ParsedSupporter → List ParsedSupporter
append_unseen seen [] = seen
append_unseen seen (s ∷ more) =
    if any (has_name s.username) seen
    then append_unseen seen more
    else append_unseen (seen ++ s ∷ []) more

-- Where the client is asked for more: an id of zero and an empty token count as missing.
unfoldable pub more_from : SupporterPage → Option (ℕ × Text)
more_from p = elim p.album_id [
  | none ↦ none
  | some id ↦ elim p.last_token [
    | none ↦ none
    | some token ↦ elim id [
      | zero ↦ none
      | suc i ↦ elim token [
        | [] ↦ none
        | c ∷ s ↦ if p.more_available then some (suc i, c ∷ s) else none
      ]
    ]
  ]
]

unfoldable pub fan_refs : List ParsedSupporter → List FanRef
fan_refs [] = []
fan_refs (s ∷ supporters) = record { url = s.url; fan_id = s.fan_id } ∷ fan_refs supporters

-- `if _within_depth(depth, max_depth):`, the loop over the supporters.
unfoldable pub enqueue_supporters :
    PageArgs → List ParsedSupporter → Table → Result FanCounts × Table
unfolding fan_refs within_depth enqueue_fans
enqueue_supporters a supporters t =
    if within_depth a.depth a.max_depth
    then enqueue_fans a.now a.setting a.scan_id a.depth a.seed (fan_refs supporters) none_yet t
    else (ok none_yet, t)

abbrev album_row : ℕ → Graph → Option ℕ
album_row b g = elim (find (is_album b) g.albums.rows) [ none ↦ none | some r ↦ some r.id ]

abbrev track_row : ℕ → Graph → Option ℕ
track_row b g = elim (find (is_track b) g.tracks.rows) [ none ↦ none | some r ↦ some r.id ]

module _ {N : Type 0} where
  -- The supporters, with those that the client pages.
  unfoldable pub all_supporters :
      PageClients N → SupporterPage → Option (ℕ × Text) → N → Result (List ParsedSupporter) × N
  unfolding append_unseen
  all_supporters clients p none net = (ok p.supporters, net)
  all_supporters clients p (some (id, token)) net =
      let (r, net') = clients.iter_supporters id token p.tralbum_type net in
      (elim r [ raise e ↦ raise e | ok more ↦ ok (append_unseen p.supporters more) ], net')

  -- The end of a crawl, after the ingest of the supporters has committed: the outcome and the commit,
  -- or an exception.
  unfoldable pub finish_page :
      PageArgs
      → CrawlKind
      → ℕ
      → ℕ
      → Graph
      → CrawlState N
      → Result FanCounts × Table
      → Result CrawlOutcome × CrawlState N
  finish_page a kind tracks supporters g s (raise e, t) = (raise e, record s { graph = g })
  finish_page a kind tracks supporters g s (ok n, t) = (
    ok (record {
      url = a.url;
      kind = kind;
      items = 0;
      tracks = tracks;
      supporters = supporters;
      enqueued = n.enqueued;
      skipped_followed = 0;
      skipped_self = n.skipped_self;
      reused = false;
      fan_id = none;
      cursor = none;
    }),
    record s { frontier = t; graph = g },
  )

  unfoldable pub after_ingest :
      PageArgs
      → CrawlKind
      → ℕ
      → List ParsedSupporter
      → CrawlState N
      → Result SupporterIngestCounts × Graph
      → Result CrawlOutcome × CrawlState N
  unfolding enqueue_supporters finish_page
  after_ingest a kind tracks supporters s (raise e, g) = (raise e, s)
  after_ingest a kind tracks supporters s (ok n, g) =
      finish_page a kind tracks n.supporters g s (enqueue_supporters a supporters s.frontier)

  -- What follows the supporters: `ingest` is the ingest for the page's row.
  unfoldable pub after_supporters :
      PageArgs
      → CrawlKind
      → ℕ
      → (List ParsedSupporter → Graph → Result SupporterIngestCounts × Graph)
      → CrawlState N
      → Result (List ParsedSupporter) × N
      → Result CrawlOutcome × CrawlState N
  unfolding after_ingest
  after_supporters a kind tracks ingest s (raise e, net) = (raise e, record s { net = net })
  after_supporters a kind tracks ingest s (ok supporters, net) =
      after_ingest a kind tracks supporters (record s { net = net }) (ingest supporters s.graph)

  -- `scalar_one` on the row of the page, and what follows it; the ingest of the page has committed.
  unfoldable pub with_row :
      PageClients N
      → PageArgs
      → CrawlKind
      → ℕ
      → SupporterPage
      → (ℕ → List ParsedSupporter → Graph → Result SupporterIngestCounts × Graph)
      → Option ℕ
      → CrawlState N
      → Result CrawlOutcome × CrawlState N
  unfolding more_from all_supporters after_supporters
  with_row clients a kind tracks p ingest none s = (raise invalid, s)
  with_row clients a kind tracks p ingest (some id) s =
      after_supporters a kind tracks (ingest id) s (all_supporters clients p (more_from p) s.net)

  unfoldable pub on_album_page :
      PageClients N
      → PageArgs
      → CrawlState N
      → Result (LoadedPage ParsedAlbum) × N
      → Result CrawlOutcome × CrawlState N
  unfolding ingest_album ingest_album_supporters with_row
  on_album_page clients a s (raise e, net) = (raise e, record s { net = net })
  on_album_page clients a s (ok p, net) =
      let (n, g) = ingest_album a.workers p.page s.graph in
      with_row clients a album n.tracks p.supporters (ingest_album_supporters a.workers)
        (album_row p.page.album_id g) (record s { net = net; graph = g })

  -- `crawl_album`
  unfoldable pub crawl_album :
      PageClients N → PageArgs → CrawlState N → Result CrawlOutcome × CrawlState N
  unfolding on_album_page
  crawl_album clients a s = on_album_page clients a s (clients.album_page a.url s.net)

  unfoldable pub on_track_page :
      PageClients N
      → PageArgs
      → CrawlState N
      → Result (LoadedPage ParsedTrackPage) × N
      → Result CrawlOutcome × CrawlState N
  unfolding ingest_track_page ingest_track_supporters with_row
  on_track_page clients a s (raise e, net) = (raise e, record s { net = net })
  on_track_page clients a s (ok p, net) =
      let (n, g) = ingest_track_page a.workers p.page s.graph in
      with_row clients a track 0 p.supporters (ingest_track_supporters a.workers)
        (track_row p.page.track_id g) (record s { net = net; graph = g })

  -- `crawl_track`
  unfoldable pub crawl_track :
      PageClients N → PageArgs → CrawlState N → Result CrawlOutcome × CrawlState N
  unfolding on_track_page
  crawl_track clients a s = on_track_page clients a s (clients.track_page a.url s.net)
