-- ===== src/Graph/Collection.antt =====
-- What backend/app/bandcamp/mapper.py keeps of a fan's items, without rows and ids: for a fan and
-- the type and Bandcamp id of an item, whether the item is recorded, and as a wish or as bought.
pub mod Laws
pub mod Edges
use bandcamp_curate.Base.{
  ℕ, suc, ◌≤◌, ◌≡◌, Bool, ◌&&◌, Option, none, some, List, [], ◌∷◌, ◌==◌, if◌then◌else◌, find,
  is_some,
}
use mathlib.Core.Option
use bandcamp_curate.Curation.Scoring.{ItemType, album, track}
use bandcamp_curate.Graph.Keyed.Laws.{IsKeyed, id_of}
use bandcamp_curate.Graph.Tables.{AlbumRow, TrackRow, FanItemRow, Graph, ParsedItem}
use bandcamp_curate.Graph.Edges.{is_item, same_type}

abbrev pub Collection : Type 0
Collection = ℕ → ItemType → ℕ → Option Bool

-- What is bought is no longer a wish.
unfoldable pub merge : Option Bool → Bool → Bool
merge none wishlist = wishlist
merge (some old) wishlist = old && wishlist

unfoldable pub is_of : ℕ → ItemType → ℕ → ℕ → ParsedItem → Bool
unfolding same_type
is_of f t c fan item = (fan == f) && (same_type item.item_type t && (item.item_id == c))

-- One item of a page of `fan`'s.
unfoldable pub collect : ℕ → Bool → ParsedItem → Collection → Collection
unfolding merge is_of
collect fan wishlist item old f t c =
    if is_of f t c fan item then some (merge (old f t c) wishlist) else old f t c

unfoldable pub collect_all : ℕ → Bool → List ParsedItem → Collection → Collection
unfolding collect
collect_all fan wishlist [] old = old
collect_all fan wishlist (item ∷ items) old =
    collect_all fan wishlist items (collect fan wishlist item old)

-- How many items of the page are new when their turn comes.
unfoldable pub count_new : ℕ → Bool → List ParsedItem → Collection → ℕ
unfolding collect
count_new fan wishlist [] old = 0
count_new fan wishlist (item ∷ items) old =
    let rest = count_new fan wishlist items (collect fan wishlist item old) in
    if is_some (old fan item.item_type item.item_id) then rest else suc rest

-- The id of the row of an album or track.
unfoldable pub row_of : ItemType → ℕ → Graph → Option ℕ
unfolding id_of
row_of album c g = id_of (λ (r : AlbumRow). r.id) (λ r. r.bandcamp_id) c g.albums
row_of track c g = id_of (λ (r : TrackRow). r.id) (λ r. r.bandcamp_id) c g.tracks

abbrev pub album_slot : ItemType → ℕ → Option ℕ
album_slot album i = some i
album_slot track i = none

abbrev pub track_slot : ItemType → ℕ → Option ℕ
track_slot album i = none
track_slot track i = some i

-- The edge of a fan to the row.
unfoldable pub is_edge : ℕ → ItemType → ℕ → FanItemRow → Bool
unfolding is_item
is_edge f t i = is_item f t (album_slot t i) (track_slot t i)

unfoldable pub edge_of : ℕ → ItemType → List FanItemRow → Option ℕ → Option Bool
unfolding is_edge
edge_of f t rows none = none
edge_of f t rows (some i) =
    Option.map (λ (r : FanItemRow). r.is_wishlist) (find (is_edge f t i) rows)

-- The collection that the graph's rows stand for.
unfoldable pub view : Graph → Collection
unfolding row_of edge_of
view g f t c = edge_of f t g.fan_items (row_of t c g)

abbrev pub next_of : ItemType → Graph → ℕ
next_of album g = g.albums.next_id
next_of track g = g.tracks.next_id

-- Albums and tracks are keyed by their Bandcamp ids, and edges are to rows.
pub record IsGraph (g : Graph) : Type 0 where
  pub albums_keyed : IsKeyed (λ (r : AlbumRow). r.id) (λ r. r.bandcamp_id) g.albums
  pub tracks_keyed : IsKeyed (λ (r : TrackRow). r.id) (λ r. r.bandcamp_id) g.tracks
  pub edges_below :
      (f i : ℕ) (t : ItemType) → next_of t g ≤ i → edge_of f t g.fan_items (some i) ≡ none
