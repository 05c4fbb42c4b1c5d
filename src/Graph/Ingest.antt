-- ===== src/Graph/Ingest.antt =====
-- The ingests of backend/app/bandcamp/mapper.py: pages of items and follows, album pages and track
-- pages.
pub mod Owned
pub mod Refine
pub mod Fans
pub mod Supporters
pub mod Collections
use bandcamp_curate.Base.{
  ℕ, zero, suc, ◌+◌, Bool, true, false, Option, none, some, List, [], ◌∷◌, ◌==◌, if◌then◌else◌,
  Text, find, is_some, Result, ok, raise,
}
use bandcamp_curate.Curation.Scoring.{ItemType, album, track}
use bandcamp_curate.Graph.Tables.{
  FanRow, Graph, Workers, ParsedBand, ParsedItem, ParsedTrack, ParsedAlbum, ParsedTrackPage,
  ParsedSupporter,
}
use bandcamp_curate.Graph.Entities.{
  get_or_create_band, get_or_create_album, get_or_create_track, get_or_create_tag, is_track,
}
use bandcamp_curate.Graph.Fans.{get_or_create_supporter_fan}
use bandcamp_curate.Graph.Edges.{
  add_fan_item, upsert_follow, add_album_tag, link_band_tag, link_track_tag, add_album_supporter,
  add_track_supporter,
}

-- A count goes up where something was created.
abbrev pub counted : Bool → ℕ
counted true = 1
counted false = 0

unfoldable pub own : Workers → ℕ → ItemType → Option ℕ → Option ℕ → Bool → Graph → ℕ × Graph
unfolding add_fan_item
own w fan type a t wishlist g =
    let (added, rows) = add_fan_item w fan type a t wishlist g.fan_items in
    (counted added, record g { fan_items = rows })

-- The parent album of a track item, a stub; an id of zero counts as missing.
unfoldable pub parent_stub : Workers → Option ℕ → Option Text → Option ℕ → Graph → Option ℕ × Graph
unfolding get_or_create_album
parent_stub w (some (suc a)) title band g =
    let (id, g') =
      get_or_create_album w (suc a)
        (record { url = none; title = title; band = band; art_id = none }) g in
    (some id, g')
parent_stub w _ title band g = (none, g)

-- `ingest_item` after its band, by the item's type: what it adds to the count.
unfoldable pub ingest_typed :
    Workers → ℕ → ParsedItem → Bool → ItemType → Option ℕ → Graph → ℕ × Graph
unfolding get_or_create_album get_or_create_track parent_stub own
ingest_typed w fan item wishlist album band g =
    let (id, g') =
      get_or_create_album w item.item_id
        (record { url = item.url; title = item.title; band = band; art_id = item.art_id }) g in
    own w fan album (some id) none wishlist g'
ingest_typed w fan item wishlist track band g =
    let (parent, g') = parent_stub w item.album_id item.album_title band g in
    let (id, g'') =
      get_or_create_track w item.item_id
        (record {
          url = item.url;
          title = item.title;
          band = band;
          album = parent;
          art_id = item.art_id;
          track_num = none;
          duration = none;
        })
        g' in
    own w fan track none (some id) wishlist g''

unfoldable pub ingest_item : Workers → ℕ → Bool → ParsedItem → Graph → ℕ × Graph
unfolding get_or_create_band ingest_typed
ingest_item w fan wishlist item g =
    let (band, g') = get_or_create_band w item.band g in
    ingest_typed w fan item wishlist item.item_type band g'

unfoldable pub ingest_items_batch : Workers → ℕ → Bool → List ParsedItem → Graph → ℕ × Graph
unfolding ingest_item
ingest_items_batch w fan wishlist [] g = (0, g)
ingest_items_batch w fan wishlist (item ∷ items) g =
    let (n, g') = ingest_item w fan wishlist item g in
    let (m, g'') = ingest_items_batch w fan wishlist items g' in (n + m, g'')

abbrev follow_band : Workers → ℕ → Option ℕ → Graph → ℕ × Graph
follow_band w fan none g = (0, g)
follow_band w fan (some band) g =
    let (added, g') = upsert_follow w band fan g in (counted added, g')

unfoldable pub ingest_follows_batch : Workers → ℕ → List ParsedBand → Graph → ℕ × Graph
unfolding get_or_create_band upsert_follow
ingest_follows_batch w fan [] g = (0, g)
ingest_follows_batch w fan (pb ∷ bands) g =
    let (band, g') = get_or_create_band w pb g in
    let (n, g'') = follow_band w fan band g' in
    let (m, g''') = ingest_follows_batch w fan bands g'' in (n + m, g''')

-- The loop over the tracks of an album page: the new ones, the ids of all, and the graph.
unfoldable pub ingest_tracks :
    Workers → Option ℕ → ℕ → List ParsedTrack → Graph → ℕ × List ℕ × Graph
unfolding get_or_create_track
ingest_tracks w band parent [] g = (0, [], g)
ingest_tracks w band parent (pt ∷ tracks) g =
    let new =
      counted (if is_some (find (is_track pt.track_id) g.tracks.rows) then false else true) in
    let (id, g') =
      get_or_create_track w pt.track_id
        (record {
          url = pt.url;
          title = pt.title;
          band = band;
          album = some parent;
          art_id = none;
          track_num = pt.track_num;
          duration = pt.duration;
        })
        g in
    let (n, ids, g'') = ingest_tracks w band parent tracks g' in (new + n, id ∷ ids, g'')

unfoldable pub tag_tracks : Workers → ℕ → List ℕ → Graph → Graph
unfolding link_track_tag
tag_tracks w tag [] g = g
tag_tracks w tag (t ∷ tracks) g = tag_tracks w tag tracks (link_track_tag w t tag g).1

-- The loop over the tags of an album page: the new edges of the album.
unfoldable pub tag_album : Workers → ℕ → Option ℕ → List ℕ → List Text → Graph → ℕ × Graph
unfolding get_or_create_tag add_album_tag link_band_tag tag_tracks
tag_album w a band tracks [] g = (0, g)
tag_album w a band tracks (name ∷ names) g =
    let (tag, g₁) = get_or_create_tag w name g in
    let (added, g₂) = add_album_tag w a tag g₁ in
    let g₃ = tag_tracks w tag tracks (link_band_tag w band tag g₂) in
    let (n, g₄) = tag_album w a band tracks names g₃ in (counted added + n, g₄)

-- `AlbumIngestCounts`
pub record AlbumIngestCounts : Type 0 where
  pub tracks : ℕ
  pub tags : ℕ

unfoldable pub ingest_album : Workers → ParsedAlbum → Graph → AlbumIngestCounts × Graph
unfolding get_or_create_band get_or_create_album ingest_tracks tag_album
ingest_album w pa g =
    let (band, g₁) = get_or_create_band w pa.band g in
    let (a, g₂) =
      get_or_create_album w pa.album_id
        (record { url = pa.url; title = pa.title; band = band; art_id = pa.art_id }) g₁ in
    let (new, tracks, g₃) = ingest_tracks w band a pa.tracks g₂ in
    let (tags, g₄) = tag_album w a band tracks pa.tags g₃ in
    (record { tracks = new; tags = tags }, g₄)

-- The parent album of a track page.
unfoldable pub page_parent : Workers → Option ℕ → Option Text → Option ℕ → Graph → Option ℕ × Graph
unfolding get_or_create_album
page_parent w none url band g = (none, g)
page_parent w (some a) url band g =
    let (id, g') =
      get_or_create_album w a (record { url = url; title = none; band = band; art_id = none }) g in
    (some id, g')

unfoldable pub tag_track : Workers → ℕ → Option ℕ → List Text → Graph → ℕ × Graph
unfolding get_or_create_tag link_track_tag link_band_tag
tag_track w t band [] g = (0, g)
tag_track w t band (name ∷ names) g =
    let (tag, g₁) = get_or_create_tag w name g in
    let (added, g₂) = link_track_tag w t tag g₁ in
    let (n, g₃) = tag_track w t band names (link_band_tag w band tag g₂) in (counted added + n, g₃)

unfoldable pub ingest_track_page : Workers → ParsedTrackPage → Graph → ℕ × Graph
unfolding get_or_create_band page_parent get_or_create_track tag_track
ingest_track_page w pt g =
    let (band, g₁) = get_or_create_band w pt.band g in
    let (parent, g₂) = page_parent w pt.album_id pt.album_url band g₁ in
    let (t, g₃) =
      get_or_create_track w pt.track_id
        (record {
          url = pt.url;
          title = pt.title;
          band = band;
          album = parent;
          art_id = pt.art_id;
          track_num = none;
          duration = none;
        })
        g₂ in
    tag_track w t band pt.tags g₃
