-- ===== src/Crawl/Replay.antt =====
-- backend/app/crawl/replay.py, and the reuse of another scan's crawl in backend/app/crawl/runner.py:
-- what a page would put on the frontier, from the rows that its crawl has left.

pub mod Seeds
use bandcamp_curate.Base.{
  ℕ, ◌+◌, Bool, true, false, ◌&&◌, ◌||◌, not, Option, none, some, List, [], ◌∷◌, ◌==◌,
  if◌then◌else◌, Text, same_text, find, Result, ok, raise,
}
use bandcamp_curate.Curation.Tables.{Link}
use bandcamp_curate.Urls.{kind_for_url}
use bandcamp_curate.Frontier.Tables.{CrawlKind, fan_collection, album, track, supporters, Table}
use bandcamp_curate.Frontier.Enqueue.{enqueue}
use bandcamp_curate.Graph.Tables.{AlbumRow, TrackRow, FanRow, FanItemRow, Graph}
use bandcamp_curate.Crawl.Fanout.{child_job}

-- Whose scan it is: `seed_fan_id`, which is compared with Bandcamp ids here, and `seed_url`.
pub record Seed : Type 0 where
  pub fan_id : Option ℕ
  pub url : Option Text

-- A fan's page and Bandcamp id.
pub record FanRef : Type 0 where
  pub url : Option Text
  pub fan_id : Option ℕ

abbrev both_numbers : Option ℕ → Option ℕ → Bool
both_numbers (some m) (some n) = m == n
both_numbers _ _ = false

abbrev both_texts : Option Text → Text → Bool
both_texts none t = false
both_texts (some s) t = same_text t s

-- `seed_fan_id is not None and fan_id == seed_fan_id or seed_url is not None and url == seed_url`
unfoldable pub is_seed : Seed → Option ℕ → Text → Bool
is_seed seed fan_id url = both_numbers fan_id seed.fan_id || both_texts seed.url url

-- What the loops over fans have come to: the fans that were enqueued, and the skips of the seed.
pub record FanCounts : Type 0 where
  pub enqueued : ℕ
  pub skipped_self : ℕ

unfoldable pub count_added : Bool → FanCounts → FanCounts
count_added true n = record n { enqueued = n.enqueued + 1 }
count_added false n = n

-- An exception of the enqueue leaves the loop.
unfoldable pub after_fan_job :
    Result Bool × Table
    → FanCounts
    → (FanCounts → Table → Result FanCounts × Table)
    → Result FanCounts × Table
unfolding count_added
after_fan_job (raise e, t) n next = (raise e, t)
after_fan_job (ok added, t) n next = next (count_added added n) t

-- One round, for the fan's id and URL: `depth` is that of the page, one above the fan's.
unfoldable pub take_fan :
    ℕ
    → Option ℕ
    → ℕ
    → ℕ
    → Seed
    → Option ℕ
    → Option Text
    → FanCounts
    → Table
    → (FanCounts → Table → Result FanCounts × Table)
    → Result FanCounts × Table
unfolding is_seed after_fan_job child_job enqueue
take_fan now setting scan_id depth seed fan_id none n t next = next n t
take_fan now setting scan_id depth seed fan_id (some []) n t next = next n t
take_fan now setting scan_id depth seed fan_id (some (c ∷ rest)) n t next =
    if is_seed seed fan_id (c ∷ rest)
    then next (record n { skipped_self = n.skipped_self + 1 }) t
    else after_fan_job (enqueue now setting t (child_job scan_id depth (c ∷ rest) fan_collection)) n
        next

-- `_enqueue_fans`, and the loops of `crawl_album` and `crawl_track`, which count the skips too.
unfoldable pub enqueue_fans :
    ℕ → Option ℕ → ℕ → ℕ → Seed → List FanRef → FanCounts → Table → Result FanCounts × Table
unfolding take_fan
enqueue_fans now setting scan_id depth seed [] n t = (ok n, t)
enqueue_fans now setting scan_id depth seed (ref ∷ refs) n t =
    take_fan now setting scan_id depth seed ref.fan_id ref.url n t
      (enqueue_fans now setting scan_id depth seed refs)

abbrev opt_text_is : Option Text → Text → Bool
opt_text_is none t = false
opt_text_is (some s) t = same_text s t

-- The fans of the joined edges, in the order of the edges.
unfoldable pub fans_of : List Link → (ℕ → Bool) → List FanRow → List FanRef
fans_of [] is_page fans = []
fans_of (l ∷ links) is_page fans =
    let rest = fans_of links is_page fans in
    if is_page l.owner
    then (elim (find (λ (r : FanRow). r.id == l.target) fans) [
      | none ↦ rest
      | some r ↦ record { url = some r.url; fan_id = r.bandcamp_fan_id } ∷ rest
    ])
    else rest

-- Whether the row of the id has the URL.
unfoldable pub album_at : Text → List AlbumRow → ℕ → Bool
album_at url rows id = elim (find (λ (r : AlbumRow). r.id == id) rows) [
  | none ↦ false
  | some r ↦ opt_text_is r.url url
]

unfoldable pub track_at : Text → List TrackRow → ℕ → Bool
track_at url rows id = elim (find (λ (r : TrackRow). r.id == id) rows) [
  | none ↦ false
  | some r ↦ opt_text_is r.url url
]

abbrev pub none_yet : FanCounts
none_yet = record { enqueued = 0; skipped_self = 0 }

unfoldable pub replay_album_fanout :
    ℕ → Option ℕ → ℕ → ℕ → Seed → Text → Graph → Table → Result FanCounts × Table
unfolding album_at fans_of enqueue_fans
replay_album_fanout now setting scan_id depth seed url g t =
    enqueue_fans now setting scan_id depth seed
      (fans_of g.album_supporters (album_at url g.albums.rows) g.fans.rows) none_yet t

unfoldable pub replay_track_fanout :
    ℕ → Option ℕ → ℕ → ℕ → Seed → Text → Graph → Table → Result FanCounts × Table
unfolding track_at fans_of enqueue_fans
replay_track_fanout now setting scan_id depth seed url g t =
    enqueue_fans now setting scan_id depth seed
      (fans_of g.track_supporters (track_at url g.tracks.rows) g.fans.rows) none_yet t

-- The URL of the row of an id that may be missing (an outer join).
unfoldable pub album_url : Option ℕ → List AlbumRow → Option Text
album_url none rows = none
album_url (some id) rows = elim (find (λ (r : AlbumRow). r.id == id) rows) [
  | none ↦ none
  | some r ↦ r.url
]

unfoldable pub track_url : Option ℕ → List TrackRow → Option Text
track_url none rows = none
track_url (some id) rows = elim (find (λ (r : TrackRow). r.id == id) rows) [
  | none ↦ none
  | some r ↦ r.url
]

-- `album_url or track_url`
unfoldable pub target_url : Option Text → Option Text → Option Text
target_url (some (c ∷ s)) other = some (c ∷ s)
target_url _ other = other

abbrev fan_at : Text → List FanRow → ℕ → Bool
fan_at url rows id = elim (find (λ (r : FanRow). r.id == id) rows) [
  | none ↦ false
  | some r ↦ same_text r.url url
]

-- The pages of the items that the fan at the URL owns, wishes left out.
unfoldable pub owned_urls : Text → Graph → List FanItemRow → List (Option Text)
unfolding album_url track_url target_url
owned_urls url g [] = []
owned_urls url g (r ∷ rows) =
    let rest = owned_urls url g rows in
    if fan_at url g.fans.rows r.fan_id && not r.is_wishlist
    then target_url (album_url r.album_id g.albums.rows) (track_url r.track_id g.tracks.rows) ∷ rest
    else rest

-- One round over the targets.
unfoldable pub take_target :
    ℕ
    → Option ℕ
    → ℕ
    → ℕ
    → Option Text
    → FanCounts
    → Table
    → (FanCounts → Table → Result FanCounts × Table)
    → Result FanCounts × Table
unfolding kind_for_url after_fan_job child_job enqueue
take_target now setting scan_id depth none n t next = next n t
take_target now setting scan_id depth (some []) n t next = next n t
take_target now setting scan_id depth (some (c ∷ rest)) n t next = elim (kind_for_url (c ∷ rest)) [
  | none ↦ next n t
  | some kind ↦
      after_fan_job (enqueue now setting t (child_job scan_id depth (c ∷ rest) kind)) n next
]

unfoldable pub enqueue_targets :
    ℕ → Option ℕ → ℕ → ℕ → List (Option Text) → FanCounts → Table → Result FanCounts × Table
unfolding take_target
enqueue_targets now setting scan_id depth [] n t = (ok n, t)
enqueue_targets now setting scan_id depth (target ∷ targets) n t =
    take_target now setting scan_id depth target n t
      (enqueue_targets now setting scan_id depth targets)

unfoldable pub replay_fan_collection_fanout :
    ℕ → Option ℕ → ℕ → ℕ → Text → Graph → Table → Result FanCounts × Table
unfolding owned_urls enqueue_targets
replay_fan_collection_fanout now setting scan_id depth url g t =
    enqueue_targets now setting scan_id depth (owned_urls url g g.fan_items) none_yet t

-- `replay_fanout`, for the depth of the page.
unfoldable pub replay_fanout :
    ℕ → Option ℕ → ℕ → ℕ → Seed → Text → CrawlKind → Graph → Table → Result FanCounts × Table
unfolding replay_fan_collection_fanout replay_album_fanout replay_track_fanout
replay_fanout now setting scan_id depth seed url fan_collection g t =
    replay_fan_collection_fanout now setting scan_id depth url g t
replay_fanout now setting scan_id depth seed url album g t =
    replay_album_fanout now setting scan_id depth seed url g t
replay_fanout now setting scan_id depth seed url track g t =
    replay_track_fanout now setting scan_id depth seed url g t
replay_fanout now setting scan_id depth seed url supporters g t = (ok none_yet, t)
