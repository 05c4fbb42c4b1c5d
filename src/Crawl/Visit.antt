-- ===== src/Crawl/Visit.antt =====
-- `crawl_fan_collection` of backend/app/crawl/service.py: a bounded slice of a fan's collection. The
-- pagination clients and the fan page (its render and backend/app/bandcamp/parse.py) are arguments;
-- they act on the network, `N`. An exception leaves what the last commit left.
pub mod Collection
pub mod Loops
pub mod Resume
pub mod Bookmark
pub mod Whole
use bandcamp_curate.Base.{
  ℕ, zero, suc, ◌+◌, Bool, true, false, ◌&&◌, Option, none, some, List, [], ◌∷◌, ◌==◌, leb,
  if◌then◌else◌, Text, same_text, find, opt_is, Result, ok, raise, invalid,
}
use bandcamp_curate.Frontier.Tables.{fan_collection, Cursor, Entry, Table, update_row}
use bandcamp_curate.Graph.Tables.{
  FanCollection, FanRow, Graph, Workers, ParsedBand, ParsedItem, ParsedFan,
}
use bandcamp_curate.Graph.Fans.{get_or_create_fan}
use bandcamp_curate.Graph.Ingest.{ingest_items_batch, ingest_follows_batch}
use bandcamp_curate.Crawl.Database.{CrawlOutcome}
use bandcamp_curate.Crawl.Fanout.{FollowedBands, Counts, followed_bands, enqueue_items, next_token}

-- `FOLLOWED_FILTER_MIN_DEPTH`
abbrev pub followed_filter_min_depth : ℕ
followed_filter_min_depth = 2

-- `PAGES_PER_VISIT`
abbrev pub pages_per_visit : ℕ
pages_per_visit = 10

-- What a client's `fetch_page` returns.
pub record Page (A : Type 0) : Type 0 where
  pub batch : List A
  pub token : Option Text
  pub more : Bool

-- The fan page and the clients' `fetch_page`, for a fan and a token.
pub record Clients (N : Type 0) : Type 0 where
  pub fan_page : Text → N → Result FanCollection × N
  pub collection : ℕ → Text → N → Result (Page ParsedItem) × N
  pub wishlist : ℕ → Text → N → Result (Page ParsedItem) × N
  pub follows : ℕ → Text → N → Result (Page ParsedBand) × N

-- The arguments of a visit, the time, the cap setting and the other workers.
pub record VisitArgs : Type 0 where
  pub url : Text
  pub is_me : Bool
  pub depth : ℕ
  pub max_depth : Option ℕ
  pub seed_fan_id : Option ℕ
  pub cursor : Option Cursor
  pub pages_per_visit : ℕ
  pub entry : Option ℕ
  pub scan_id : ℕ
  pub now : ℕ
  pub setting : Option ℕ
  pub workers : Workers

-- What the visit has come to: the committed tables and the network, the tokens (with the fan's
-- Bandcamp id) and the counts.
pub record Visit (N : Type 0) : Type 0 where
  pub frontier : Table
  pub graph : Graph
  pub net : N
  pub tokens : Cursor
  pub ingested : ℕ
  pub enqueued : ℕ
  pub skips : ℕ

-- An empty token is no token.
abbrev pub live : Option Text → Option Text
live none = none
live (some []) = none
live (some (c ∷ s)) = some (c ∷ s)

abbrev pub is_live : Option Text → Bool
is_live none = false
is_live (some []) = false
is_live (some (c ∷ s)) = true

-- `snapshot`: `any(tokens.values())`
unfoldable pub snapshot : Cursor → Option Cursor
snapshot c =
    if is_live c.collection
    then some c
    else if is_live c.wishlist
    then some c
    else if is_live c.follows
    then some c
    else none

abbrev same_token : Option Text → Option Text → Bool
same_token none none = true
same_token (some s) (some t) = same_text s t
same_token _ _ = false

abbrev same_cursor : Option Cursor → Option Cursor → Bool
same_cursor none none = true
same_cursor (some c) (some d) =
    (c.fan_id == d.fan_id)
    && (same_token c.collection d.collection
        && (same_token c.wishlist d.wishlist && same_token c.follows d.follows))
same_cursor _ _ = false

-- `entry.cursor = …`; an update stamps the row, and a value that is the same is no update.
unfoldable pub bookmark : ℕ → Option Cursor → Entry → Entry
bookmark now c e = if same_cursor e.cursor c then e else record e { cursor = c; updated_at = now }

unfoldable pub checkpoint_at : ℕ → Option ℕ → Option Cursor → Table → Table
unfolding bookmark
checkpoint_at now none c t = t
checkpoint_at now (some entry) c t = record t { rows = update_row entry (bookmark now c) t.rows }

module _ {N : Type 0} where
  -- `checkpoint`
  unfoldable pub checkpoint : VisitArgs → Visit N → Visit N
  unfolding checkpoint_at snapshot
  checkpoint a s = record s {
    frontier = checkpoint_at a.now a.entry (snapshot s.tokens) s.frontier;
  }

  -- The fan-out of a page; a failed enqueue takes the page with it, back to `before`.
  unfoldable pub after_fanout :
      VisitArgs → Visit N → Visit N → Result Counts × Table → Result (Unit {0}) × Visit N
  unfolding checkpoint
  after_fanout a before s (raise e, t) = (raise e, before)
  after_fanout a before s (ok n, t) = (
    ok tt,
    checkpoint a
        (record s { frontier = t; enqueued = s.enqueued + n.enqueued; skips = s.skips + n.skips }),
  )

  -- `absorb`, where the tokens `c` are what is left after the page.
  unfoldable pub absorb :
      VisitArgs
      → FollowedBands
      → ℕ
      → Bool
      → List ParsedItem
      → Cursor
      → Visit N
      → Result (Unit {0}) × Visit N
  unfolding ingest_items_batch enqueue_items after_fanout
  absorb a followed fan wishlist batch c s =
      let (n, g) = ingest_items_batch a.workers fan wishlist batch s.graph in
      let s' = record s { graph = g; tokens = c; ingested = s.ingested + n } in
      if wishlist
      then (ok tt, checkpoint a s')
      else after_fanout a s s'
          (enqueue_items a.now a.setting a.scan_id a.depth a.max_depth followed batch s.frontier)

  -- The follows of a page.
  unfoldable pub absorb_follows :
      VisitArgs → ℕ → List ParsedBand → Cursor → Visit N → Result (Unit {0}) × Visit N
  unfolding ingest_follows_batch checkpoint
  absorb_follows a fan bands c s =
      let (n, g) = ingest_follows_batch a.workers fan bands s.graph in
      (ok tt, checkpoint a (record s { graph = g; tokens = c }))

  -- What a loop does with a fetched page, or with the error of the fetch.
  unfoldable pub fetched :
      {A : Type 0}
      → Result (Page A) × N
      → (Page A → Visit N → Result (Unit {0}) × Visit N)
      → Visit N
      → Result (Unit {0}) × Visit N
  fetched (raise e, net) next s = (raise e, record s { net = net })
  fetched (ok p, net) next s = next p (record s { net = net })

  -- What follows a round of a loop that did not raise.
  abbrev pub after_round :
      Result (Unit {0}) × Visit N → (Visit N → Result ℕ × Visit N) → Result ℕ × Visit N
  after_round (raise e, s) next = (raise e, s)
  after_round (ok u, s) next = next s

  -- One of the `while` loops, with `left` pages of the budget: `step` is its body, for the token.
  unfoldable pub page_through :
      (Text → Visit N → Result (Unit {0}) × Visit N)
      → (Cursor → Option Text)
      → ℕ
      → Visit N
      → Result ℕ × Visit N
  page_through step stream zero s = (ok 0, s)
  page_through step stream (suc left) s = elim (live (stream s.tokens)) [
    | none ↦ (ok (suc left), s)
    | some token ↦ after_round (step token s) (page_through step stream left)
  ]

  -- `and is_me`
  unfoldable pub page_through_mine :
      Bool
      → (Text → Visit N → Result (Unit {0}) × Visit N)
      → (Cursor → Option Text)
      → ℕ
      → Visit N
      → Result ℕ × Visit N
  unfolding page_through
  page_through_mine true step stream left s = page_through step stream left s
  page_through_mine false step stream left s = (ok left, s)

  -- What follows a loop that did not raise.
  unfoldable pub and_then :
      Result ℕ × Visit N → (ℕ → Visit N → Result ℕ × Visit N) → Result ℕ × Visit N
  and_then (raise e, s) next = (raise e, s)
  and_then (ok left, s) next = next left s

  module _ (clients : Clients N) (a : VisitArgs) (followed : FollowedBands) (fan : ℕ) where
    unfoldable pub collection_step : Text → Visit N → Result (Unit {0}) × Visit N
    unfolding fetched absorb next_token
    collection_step token s =
        fetched (clients.collection s.tokens.fan_id token s.net)
          (λ p s'.
            absorb a followed fan false p.batch
              (record (s'.tokens) { collection = next_token (some token) p.token p.more }) s')
          s

    unfoldable pub wishlist_step : Text → Visit N → Result (Unit {0}) × Visit N
    unfolding fetched absorb next_token
    wishlist_step token s =
        fetched (clients.wishlist s.tokens.fan_id token s.net)
          (λ p s'.
            absorb a followed fan true p.batch
              (record (s'.tokens) { wishlist = next_token (some token) p.token p.more }) s')
          s

    unfoldable pub follows_step : Text → Visit N → Result (Unit {0}) × Visit N
    unfolding fetched absorb_follows next_token
    follows_step token s =
        fetched (clients.follows s.tokens.fan_id token s.net)
          (λ p s'.
            absorb_follows a fan p.batch
              (record (s'.tokens) { follows = next_token (some token) p.token p.more }) s')
          s

    -- The three loops, with a budget of pages. What is left of it.
    unfoldable pub visit_pages : ℕ → Visit N → Result ℕ × Visit N
    unfolding collection_step wishlist_step follows_step page_through page_through_mine and_then
    visit_pages budget s =
        and_then (page_through collection_step (λ c. c.collection) budget s) (λ left s₁.
          and_then (page_through_mine a.is_me wishlist_step (λ c. c.wishlist) left s₁)
            (λ left' s₂. page_through_mine a.is_me follows_step (λ c. c.follows) left' s₂))
