-- ===== src/Tests/Slices.antt =====
-- The theorems on visits, replays and `process_entry` of backend/app/crawl for a small network, which
-- counts the requests.
use bandcamp_curate.Base.{
  same_text, ℕ, suc, ◌+◌, ◌≡◌, refl, true, false, Option, none, some, [], ◌∷◌, Text, codes, ok,
  raise, invalid,
}
use bandcamp_curate.Frontier.Tables.{has_key, update_row, same_kind, done}
use bandcamp_curate.Graph.Tables.{alone}
use bandcamp_curate.Crawl.Fanout.{FollowedBands}
use bandcamp_curate.Crawl.Replay.{Seed}
use bandcamp_curate.Frontier.Enqueue.{insert}
use bandcamp_curate.Crawl.Visit.{Clients, Visit, VisitArgs, visit_pages, snapshot, and_then}
use bandcamp_curate.Crawl.Visit.Resume.{visit_pages-more}
use bandcamp_curate.Crawl.Visit.Collection.{start_tokens, crawl_fan_collection}
use bandcamp_curate.Crawl.Visit.Bookmark.{Bookmarked}
use bandcamp_curate.Crawl.Visit.Whole.{Returned, crawl_fan_collection-Bookmarked}
use bandcamp_curate.Crawl.Pages.{PageClients, CrawlState}
use bandcamp_curate.Crawl.Process.{ProcessArgs, process_entry}
use bandcamp_curate.Crawl.Process.Reuse.{Reused, process_entry-Reused}
use bandcamp_curate.Tests.Queue.{two_entries, fan_entry, album_entry}
use bandcamp_curate.Tests.Pages.{items}
use bandcamp_curate.Tests.Graphs.{graph}

-- Two pages after the first one: the token is of one letter, then of two, then there is no more.
abbrev next_page : Text → Option Text
next_page [] = none
next_page (c ∷ []) = some (c ∷ c ∷ [])
next_page (c ∷ d ∷ s) = none

abbrev clients : Clients ℕ
clients = record {
  fan_page = λ url n. (
    ok (record {
      fan = record { fan_id = 3; username = codes "ann"; name = none; url = none };
      items = items;
      wishlist = [];
      follows = [];
      last_token = some (97 ∷ []);
      more_available = true;
      wishlist_last_token = none;
      wishlist_more_available = false;
      follows_last_token = none;
      follows_more_available = false;
    }),
    suc n,
  );
  collection =
      λ fan token n. (ok (record { batch = items; token = next_page token; more = true }), suc n);
  wishlist = λ fan token n. (ok (record { batch = []; token = none; more = false }), suc n);
  follows = λ fan token n. (raise invalid, suc n);
}

abbrev args : VisitArgs
args = record {
  url = fan_entry.url;
  is_me = false;
  depth = 0;
  max_depth = none;
  seed_fan_id = none;
  cursor = none;
  pages_per_visit = 1;
  entry = some fan_entry.id;
  scan_id = 5;
  now = 9;
  setting = none;
  workers = alone;
}

abbrev unfollowed : FollowedBands
unfollowed = record { band_ids = []; hosts = [] }

abbrev at_one : Visit ℕ
at_one = record {
  frontier = two_entries;
  graph = graph;
  net = 0;
  tokens = record { fan_id = 3; collection = some (97 ∷ []); wishlist = none; follows = none };
  ingested = 0;
  enqueued = 0;
  skips = 0;
}

visit_pages-more_example :
    and_then
      (visit_pages clients args unfollowed 1 1 at_one)
      (λ left s. visit_pages clients args unfollowed 1 (left + 2) s)
    ≡ visit_pages clients args unfollowed 1 3 at_one
visit_pages-more_example = visit_pages-more clients args unfollowed 1 1 2 at_one

crawl_fan_collection-Bookmarked_example :
    Returned (crawl_fan_collection clients args two_entries graph 0)
    × Bookmarked args fan_entry.id refl (crawl_fan_collection clients args two_entries graph 0).1
unfolding snapshot start_tokens
crawl_fan_collection-Bookmarked_example =
    crawl_fan_collection-Bookmarked ℕ clients args fan_entry.id refl two_entries graph 0 refl
      (λ _. refl, (λ _. refl, tt))

abbrev seed : Seed
seed = record { fan_id = none; url = some (codes "https://bandcamp.com/ann") }

abbrev pages : PageClients ℕ
pages = record {
  album_page = λ url n. (raise invalid, suc n);
  track_page = λ url n. (raise invalid, suc n);
  iter_supporters = λ id token type n. (ok [], suc n);
}

abbrev process : ProcessArgs
process = record { seed = seed; max_depth = some 3; now = 9; setting = none; workers = alone }

-- Another scan has crawled the album.
abbrev elsewhere : CrawlState ℕ
elsewhere = record {
  frontier = record two_entries {
    rows = record album_entry { scan_id = 6; status = done } ∷ two_entries.rows;
  };
  graph = graph;
  net = 0;
}

process_entry-Reused_example :
    Reused process album_entry elsewhere (process_entry clients pages process album_entry elsewhere)
process_entry-Reused_example = process_entry-Reused clients pages process album_entry elsewhere

-- Two tokens take two requests of the budget of five.
two_requests : (visit_pages clients args unfollowed 1 5 at_one).1.net ≡ 2
unfolding visit_pages same_text has_key insert update_row same_kind
two_requests = refl
