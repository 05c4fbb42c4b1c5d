-- ===== src/Graph/Ingest/Owned.antt =====
-- `ingest_item` and `ingest_items_batch` of backend/app/bandcamp/mapper.py as steps of a fan's
-- collection.
use bandcamp_curate.Base.{
  is_some, ◌&&◌, ◌<◌, ◌&&◌, ◌⊎◌, ℕ, ◌≤◌, ◌≡◌, refl, ◌∙◌, Bool, true, false, Option, none, some,
  List, ◌==◌, ==_iff, if◌then◌else◌, arith, Option-cases, inl, inr,
}
use mathlib.Core.Path.{fun_ext}
use bandcamp_curate.Curation.Scoring.{ItemType, album, track}
use bandcamp_curate.Graph.Ingest.{own}
use bandcamp_curate.Graph.Keyed.{Keyed, get_or_create}
use bandcamp_curate.Graph.Keyed.Laws.{own_id, Done, id_of, get_or_create-Done, Done-IsKeyed}
use bandcamp_curate.Graph.Collection.Edges.{same_type_lem, add_fan_item-at, add_fan_item-new}
use bandcamp_curate.Graph.Edges.{same_type, add_fan_item}
use bandcamp_curate.Graph.Tables.{AlbumRow, TrackRow, FanItemRow, Graph, alone}
use bandcamp_curate.Graph.Entities.{
  is_album, is_track, AlbumArgs, TrackArgs, get_or_create_album, get_or_create_track, enrich_album,
  new_album, enrich_track, new_track,
}
use bandcamp_curate.Graph.Collection.{
  album_slot, track_slot, merge, IsGraph, view, row_of, edge_of, next_of,
}

-- A row that gets an id above all edges changes no view.
fresh_row :
    (rows : List FanItemRow) (f : ℕ) (t : ItemType) (m m' : Option ℕ) (n : ℕ) (same : Bool)
    → m' ≡ (if same then some n else m)
    → (same ≡ true → (m ≡ some n) ⊎ ((m ≡ none) × (edge_of f t rows (some n) ≡ none)))
    → edge_of f t rows m' ≡ edge_of f t rows m
unfolding edge_of
fresh_row rows f t m m' n true h k = elim (k refl) [
  | inl e ↦ rw (h, e)
  | inr (e, gone) ↦ rw (h, e, gone)
]
fresh_row rows f t m m' n false h k = rw h

module _ {A : Type 0} (id : A → ℕ) (key : A → Option ℕ) where
  Done-edge :
      (b : ℕ) (k : Keyed A) (r : A × Keyed A) (rows : List FanItemRow) (f c : ℕ) (t : ItemType)
      → Done id key b k r
      → ((i : ℕ) → k.next_id ≤ i → edge_of f t rows (some i) ≡ none)
      → edge_of f t rows (id_of id key c r.1) ≡ edge_of f t rows (id_of id key c k)
  Done-edge b k r rows f c t d below =
      fresh_row rows f t (id_of id key c k) (id_of id key c r.1) (id r.0) (b == c) (d.map_lem c)
        (λ e. elim (Option-cases (id_of id key b k)) [
          | inl gone ↦
              inr
                (ground (arith, e, gone, ==_iff b c), below (id r.0) (ground (arith, d.fresh gone)))
          | inr (i, found) ↦ inl (ground (arith, e, found, d.same i found, ==_iff b c))
        ])

pub fun_ext₃ :
    {f g : ℕ → ItemType → ℕ → Option Bool}
    → ((a : ℕ) (t : ItemType) (c : ℕ) → f a t c ≡ g a t c)
    → f ≡ g
fun_ext₃ h = fun_ext (λ a. fun_ext (λ t. fun_ext (h a t)))

-- What a `get_or_create_…` of an item's table leaves: the row of the item is there, and no fan's
-- collection has changed.
pub record Kept (t : ItemType) (b : ℕ) (g : Graph) (r : ℕ × Graph) : Type 0 where
  pub graph : IsGraph r.1
  pub row : row_of t b r.1 ≡ some r.0
  pub same : view r.1 ≡ view g

album_edges :
    (g : Graph) (k : Keyed AlbumRow)
    → IsGraph g
    → g.albums.next_id ≤ k.next_id
    → (f i : ℕ) (t : ItemType) → next_of t (record g { albums = k }) ≤ i
    → edge_of f t g.fan_items (some i) ≡ none
album_edges g k v grows f i album h = v.edges_below f i album (ground (arith, h, grows))
album_edges g k v grows f i track h = v.edges_below f i track h

track_edges :
    (g : Graph) (k : Keyed TrackRow)
    → IsGraph g
    → g.tracks.next_id ≤ k.next_id
    → (f i : ℕ) (t : ItemType) → next_of t (record g { tracks = k }) ≤ i
    → edge_of f t g.fan_items (some i) ≡ none
track_edges g k v grows f i album h = v.edges_below f i album h
track_edges g k v grows f i track h = v.edges_below f i track (ground (arith, h, grows))

album_view :
    (g : Graph) (k : Keyed AlbumRow)
    → ((f c : ℕ)
        → edge_of f album g.fan_items (row_of album c (record g { albums = k }))
          ≡ edge_of f album g.fan_items (row_of album c g))
    → (f : ℕ) (t : ItemType) (c : ℕ) → view (record g { albums = k }) f t c ≡ view g f t c
unfolding view
album_view g k h f album c = h f c
album_view g k h f track c = refl

track_view :
    (g : Graph) (k : Keyed TrackRow)
    → ((f c : ℕ)
        → edge_of f track g.fan_items (row_of track c (record g { tracks = k }))
          ≡ edge_of f track g.fan_items (row_of track c g))
    → (f : ℕ) (t : ItemType) (c : ℕ) → view (record g { tracks = k }) f t c ≡ view g f t c
unfolding view
track_view g k h f album c = refl
track_view g k h f track c = h f c

pub album-Kept :
    (b : ℕ) (a : AlbumArgs) (g : Graph)
    → IsGraph g
    → Kept album b g (get_or_create_album alone b a g)
unfolding get_or_create_album view row_of enrich_album new_album
album-Kept b a g v =
    let id = λ (r : AlbumRow). r.id in
    let key = λ (r : AlbumRow). r.bandcamp_id in
    let r = get_or_create (is_album b) (enrich_album a) (new_album b a) (λ k. k) g.albums in
    let d =
      get_or_create-Done id key b (enrich_album a) (new_album b a) (λ r. refl) (λ r. refl)
        (λ n. refl) (λ n. refl) g.albums in
    let ((low, grows), own) = own_id id key b g.albums r d v.albums_keyed in
    record {
      graph = record {
        albums_keyed = Done-IsKeyed id key b g.albums r d v.albums_keyed;
        tracks_keyed = v.tracks_keyed;
        edges_below = album_edges g r.1 v grows;
      };
      row = d.map_lem b ∙ ground (arith, ==_iff b b);
      same = fun_ext₃ (
          album_view g r.1 (λ f c.
            Done-edge id key b g.albums r g.fan_items f c album d (λ i. v.edges_below f i album)));
    }

pub track-Kept :
    (b : ℕ) (a : TrackArgs) (g : Graph)
    → IsGraph g
    → Kept track b g (get_or_create_track alone b a g)
unfolding get_or_create_track view row_of enrich_track new_track
track-Kept b a g v =
    let id = λ (r : TrackRow). r.id in
    let key = λ (r : TrackRow). r.bandcamp_id in
    let r = get_or_create (is_track b) (enrich_track a) (new_track b a) (λ k. k) g.tracks in
    let d =
      get_or_create-Done id key b (enrich_track a) (new_track b a) (λ r. refl) (λ r. refl)
        (λ n. refl) (λ n. refl) g.tracks in
    let ((low, grows), own) = own_id id key b g.tracks r d v.tracks_keyed in
    record {
      graph = record {
        albums_keyed = v.albums_keyed;
        tracks_keyed = Done-IsKeyed id key b g.tracks r d v.tracks_keyed;
        edges_below = track_edges g r.1 v grows;
      };
      row = d.map_lem b ∙ ground (arith, ==_iff b b);
      same = fun_ext₃ (
          track_view g r.1 (λ f c.
            Done-edge id key b g.tracks r g.fan_items f c track d (λ i. v.edges_below f i track)));
    }

row_one :
    (t : ItemType) (b c i : ℕ) (g : Graph)
    → IsGraph g
    → row_of t b g ≡ some i
    → row_of t c g ≡ some i
    → b ≡ c
unfolding row_of
row_one album b c i g v h h' = v.albums_keyed.one_key b c i h h'
row_one track b c i g v h h' = v.tracks_keyed.one_key b c i h h'

row_below :
    (t : ItemType) (b i : ℕ) (g : Graph) → IsGraph g → row_of t b g ≡ some i → i < next_of t g
unfolding row_of
row_below album b i g v h = v.albums_keyed.below b i h
row_below track b i g v h = v.tracks_keyed.below b i h

next_kept :
    (t : ItemType) (rows : List FanItemRow) (g : Graph)
    → next_of t (record g { fan_items = rows }) ≡ next_of t g
next_kept album rows g = refl
next_kept track rows g = refl

row_kept :
    (t : ItemType) (c : ℕ) (rows : List FanItemRow) (g : Graph)
    → row_of t c (record g { fan_items = rows }) ≡ row_of t c g
unfolding row_of
row_kept album c rows g = refl
row_kept track c rows g = refl

-- One edge, from a fan to the row of an item, is one mark in the view.
pub own-view :
    (fan : ℕ) (t : ItemType) (b i : ℕ) (w : Bool) (g : Graph)
    → IsGraph g
    → row_of t b g ≡ some i
    → let r = own alone fan t (album_slot t i) (track_slot t i) w g in
      (f : ℕ) (t' : ItemType) (c : ℕ)
      → view r.1 f t' c ≡ (
          if (fan == f) && (same_type t t' && (b == c))
          then some (merge (view g f t' c) w)
          else view g f t' c)
unfolding own view
own-view fan t b i w g v h f t' c =
    let rows = (add_fan_item alone fan t (album_slot t i) (track_slot t i) w g.fan_items).1 in
    rw (row_kept t' c rows g) (elim (Option-cases (row_of t' c g)) [
      | inl gone ↦ ground (arith, gone, h, same_type_lem t t', ==_iff b c, ==_iff fan f)
      | inr (j, found) ↦ ground (
        arith,
        found,
        h,
        same_type_lem t t',
        ==_iff b c,
        ==_iff fan f,
        ==_iff i j,
        row_one t b c i g v h,
        add_fan_item-at fan t i w g.fan_items f t' j,
      )
    ])

pub own-count :
    (fan : ℕ) (t : ItemType) (b i : ℕ) (w : Bool) (g : Graph)
    → row_of t b g ≡ some i
    → (own alone fan t (album_slot t i) (track_slot t i) w g).0
      ≡ (if is_some (view g fan t b) then 0 else 1)
unfolding own view
own-count fan t b i w g h = ground (arith, h, add_fan_item-new fan t i w g.fan_items)

pub own-IsGraph :
    (fan : ℕ) (t : ItemType) (b i : ℕ) (w : Bool) (g : Graph)
    → IsGraph g
    → row_of t b g ≡ some i
    → IsGraph (own alone fan t (album_slot t i) (track_slot t i) w g).1
unfolding own
own-IsGraph fan t b i w g v h = record {
  albums_keyed = v.albums_keyed;
  tracks_keyed = v.tracks_keyed;
  edges_below = λ f j t' l.
      let low =
        next_kept t' (add_fan_item alone fan t (album_slot t i) (track_slot t i) w g.fan_items).1
          g in
      ground (
        arith,
        l,
        low,
        row_below t b i g v h,
        v.edges_below f j t',
        same_type_lem t t',
        ==_iff i j,
        add_fan_item-at fan t i w g.fan_items f t' j,
      );
}
