-- ===== src/Graph/Edges.antt =====
-- The edges of backend/app/bandcamp/mapper.py: ownership, follows, tags and supporters.
use bandcamp_curate.Base.{
  ℕ, Bool, true, false, ◌&&◌, Option, none, some, List, ◌==◌, if◌then◌else◌, find, any,
}
use bandcamp_curate.Curation.Tables.{Link}
use bandcamp_curate.Curation.Scoring.{ItemType, album, track}
use bandcamp_curate.Graph.Keyed.{update_first, add_edge, add_edge_or_false}
use bandcamp_curate.Curation.Tables.{BandKind, artist, label, unknown}
use bandcamp_curate.Graph.Tables.{BandRow, FanItemRow, FollowRow, Graph, Workers}

unfoldable pub same_type : ItemType → ItemType → Bool
same_type album album = true
same_type track track = true
same_type _ _ = false

-- `=`, where two missing values are the same (`IS NULL`).
unfoldable pub same_ref : Option ℕ → Option ℕ → Bool
same_ref none none = true
same_ref (some m) (some n) = m == n
same_ref _ _ = false

-- What the SELECT of `_add_fan_item` asks of a row.
unfoldable pub is_item : ℕ → ItemType → Option ℕ → Option ℕ → FanItemRow → Bool
unfolding same_type same_ref
is_item fan type a t r =
    r.fan_id == fan
    && (same_type r.item_type type && (same_ref r.album_id a && same_ref r.track_id t))

-- `if existing.is_wishlist and not is_wishlist`: what is bought is no longer a wish.
unfoldable pub observe : Bool → FanItemRow → FanItemRow
observe wishlist r = record r { is_wishlist = r.is_wishlist && wishlist }

-- `_add_fan_item`; `a` and `t` are the ids of the album or track.
unfoldable pub add_fan_item :
    Workers → ℕ → ItemType → Option ℕ → Option ℕ → Bool → List FanItemRow → Bool × List FanItemRow
unfolding is_item observe update_first add_edge_or_false
add_fan_item w fan type a t wishlist rows =
    if any (is_item fan type a t) rows
    then (false, update_first (is_item fan type a t) (observe wishlist) rows)
    else add_edge_or_false (is_item fan type a t)
        (record {
          fan_id = fan;
          item_type = type;
          album_id = a;
          track_id = t;
          is_wishlist = wishlist;
        })
        (w.to_fan_items rows)

-- `target` of `upsert_follow`: an artist, unless the band is known to be a label.
unfoldable pub target_of : BandKind → BandKind
target_of label = label
target_of _ = artist

-- The kind of the band's row.
unfoldable pub kind_of : ℕ → List BandRow → BandKind
kind_of id rows = elim (find (λ (r : BandRow). r.id == id) rows) [
  | none ↦ unknown
  | some r ↦ r.kind
]

unfoldable pub upsert_follow : Workers → ℕ → ℕ → Graph → Bool × Graph
unfolding target_of kind_of add_edge
upsert_follow w band fan g =
    let (added, follows) =
      add_edge (λ (r : FollowRow). (r.fan_id == fan) && (r.band_id == band))
        (record {
          fan_id = fan;
          band_id = band;
          target_type = target_of (kind_of band g.bands.rows);
        })
        w.to_follows g.follows in
    (added, record g { follows = follows })

abbrev pub is_link : ℕ → ℕ → Link → Bool
is_link owner target l = (l.owner == owner) && (l.target == target)

-- `_add_album_tag`, `_link_tag`, `_add_album_supporter`, `_add_track_supporter`: one on each table.
unfoldable pub link : Workers → ℕ → ℕ → List Link → Bool × List Link
unfolding add_edge
link w owner target rows =
    add_edge (is_link owner target) (record { owner = owner; target = target }) w.to_links rows

unfoldable pub add_album_tag : Workers → ℕ → ℕ → Graph → Bool × Graph
unfolding link
add_album_tag w a tag g =
    let (added, rows) = link w a tag g.album_tags in (added, record g { album_tags = rows })

unfoldable pub link_band_tag : Workers → Option ℕ → ℕ → Graph → Graph
unfolding link
link_band_tag w none tag g = g
link_band_tag w (some band) tag g = record g { band_tags = (link w band tag g.band_tags).1 }

unfoldable pub link_track_tag : Workers → ℕ → ℕ → Graph → Bool × Graph
unfolding link
link_track_tag w t tag g =
    let (added, rows) = link w t tag g.track_tags in (added, record g { track_tags = rows })

unfoldable pub add_album_supporter : Workers → ℕ → ℕ → Graph → Bool × Graph
unfolding link
add_album_supporter w a fan g =
    let (added, rows) = link w a fan g.album_supporters in
    (added, record g { album_supporters = rows })

unfoldable pub add_track_supporter : Workers → ℕ → ℕ → Graph → Bool × Graph
unfolding link
add_track_supporter w t fan g =
    let (added, rows) = link w t fan g.track_supporters in
    (added, record g { track_supporters = rows })
