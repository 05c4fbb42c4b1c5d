-- ===== src/Tests/Pages.antt =====
-- A page of two items, and the theorems on the fan-out of backend/app/crawl/service.py for it.
use bandcamp_curate.Base.{Text, same_text, ok, ◌≡◌, refl, none, some, List, [], ◌∷◌, codes}
use bandcamp_curate.Frontier.Tables.{has_key}
use bandcamp_curate.Frontier.Enqueue.{insert}
use bandcamp_curate.Graph.Tables.{ParsedItem}
use bandcamp_curate.Curation.Scoring.{album}
use bandcamp_curate.Crawl.Fanout.{FollowedBands, enqueue_items}
use bandcamp_curate.Crawl.Fanout.Children.{IsAbove, IsChild, Grown, enqueue_items-Grown}
use bandcamp_curate.Tests.Queue.{two_entries}

abbrev follows : FollowedBands
follows = record { band_ids = 7 ∷ []; hosts = codes "label.example" ∷ [] }

abbrev item : Text → ParsedItem
item url = record {
  item_id = 1;
  item_type = album;
  band = record { bandcamp_id = some 8; name = none; url = none };
  title = none;
  url = some url;
  album_id = none;
  album_title = none;
  art_id = none;
}

abbrev pub items : List ParsedItem
items =
    item (codes "https://a.example/album/one") ∷ item (codes "https://Label.example/track/two") ∷ []

enqueue_items-Grown_example :
    Grown
      (λ e. IsAbove 1 (some 4) × IsChild 5 1 follows items e)
      two_entries
      (enqueue_items 3 none 5 1 (some 4) follows items two_entries).1
enqueue_items-Grown_example = enqueue_items-Grown 3 none 5 1 (some 4) follows items two_entries

-- The first item is queued, the second is on the storefront of a followed label.
prunes_label :
    (enqueue_items 3 none 5 1 (some 4) follows items two_entries).0
    ≡ ok (record { enqueued = 1; skips = 1 })
unfolding enqueue_items same_text has_key insert
prunes_label = refl
