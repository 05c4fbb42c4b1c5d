-- ===== src/Graph/Ingest/Refine.antt =====
-- `ingest_items_batch` of backend/app/bandcamp/mapper.py implements the abstract collection: every
-- page does to the rows what it does to the marks.
use bandcamp_curate.Base.{
  zero, Text, ◌≤◌, ℕ, suc, ◌≡◌, refl, sym, ap, ◌∙◌, Bool, Option, none, some, List, [], ◌∷◌, arith,
  is_some, if◌then◌else◌,
}
use bandcamp_curate.Curation.Scoring.{ItemType, album, track}
use bandcamp_curate.Graph.Keyed.{Keyed}
use bandcamp_curate.Graph.Tables.{BandRow, Graph, alone, ParsedItem, ParsedBand}
use bandcamp_curate.Graph.Entities.{band_for, get_or_create_band}
use bandcamp_curate.Graph.Ingest.{own, parent_stub, ingest_typed, ingest_item, ingest_items_batch}
use bandcamp_curate.Graph.Collection.{
  edge_of, Collection, next_of, IsGraph, view, collect, collect_all, count_new, is_of, album_slot,
  track_slot,
}
use bandcamp_curate.Graph.Collection.Laws.{collect_all-again, count_new-again}
use bandcamp_curate.Graph.Ingest.Owned.{
  Kept, album-Kept, track-Kept, own-view, own-count, own-IsGraph, fun_ext₃,
}

-- Bands have no part in a collection.
record Untouched (g : Graph) (g' : Graph) : Type 0 where
  pub graph : IsGraph g → IsGraph g'
  pub same : IsGraph g → view g' ≡ view g

bands_edges :
    (g : Graph) (k : Keyed BandRow)
    → IsGraph g
    → (f i : ℕ) (t : ItemType) → next_of t (record g { bands = k }) ≤ i
    → edge_of f t g.fan_items (some i) ≡ none
bands_edges g k v f i album h = v.edges_below f i album h
bands_edges g k v f i track h = v.edges_below f i track h

bands_view :
    (g : Graph) (k : Keyed BandRow) (f : ℕ) (t : ItemType) (c : ℕ)
    → view (record g { bands = k }) f t c ≡ view g f t c
unfolding view
bands_view g k f album c = refl
bands_view g k f track c = refl

band-Untouched :
    (pb : ParsedBand) (b : Option ℕ) (g : Graph) → Untouched g (band_for alone pb b g).1
unfolding band_for view
band-Untouched pb none g = record { graph = λ v. v; same = λ v. refl }
band-Untouched pb (some b) g = record {
  graph = λ v. record {
    albums_keyed = v.albums_keyed;
    tracks_keyed = v.tracks_keyed;
    edges_below = bands_edges g _ v;
  };
  same = λ v. fun_ext₃ (bands_view g _);
}

-- An item with its row there.
record Step (fan : ℕ) (w : Bool) (item : ParsedItem) (t : ItemType) (g : Graph) (r : ℕ × Graph)
    : Type 0 where
  pub graph : IsGraph r.1
  pub same : view r.1 ≡ collect fan w (record item { item_type = t }) (view g)
  pub count : r.0 ≡ (if is_some (view g fan t item.item_id) then 0 else 1)

own-Step :
    (fan : ℕ) (w : Bool) (item : ParsedItem) (t : ItemType) (g : Graph) (r : ℕ × Graph)
    → Kept t item.item_id g r
    → Step fan w item t g (own alone fan t (album_slot t r.0) (track_slot t r.0) w r.1)
unfolding collect is_of
own-Step fan w item t g r k = record {
  graph = own-IsGraph fan t item.item_id r.0 w r.1 k.graph k.row;
  same =
      fun_ext₃ (own-view fan t item.item_id r.0 w r.1 k.graph k.row)
      ∙ ap (collect fan w (record item { item_type = t })) k.same;
  count =
      own-count fan t item.item_id r.0 w r.1 k.row
      ∙ ap (λ (col : Collection). if is_some (col fan t item.item_id) then 0 else 1) k.same;
}

-- The parent album of a track is no item of the fan's.
stub-Untouched :
    (a : Option ℕ) (title : Option Text) (band : Option ℕ) (g : Graph)
    → Untouched g (parent_stub alone a title band g).1
unfolding parent_stub
stub-Untouched none title band g = record { graph = λ v. v; same = λ v. refl }
stub-Untouched (some zero) title band g = record { graph = λ v. v; same = λ v. refl }
stub-Untouched (some (suc a)) title band g =
    let k =
      album-Kept (suc a) (record { url = none; title = title; band = band; art_id = none }) g in
    record { graph = λ v. (k v).graph; same = λ v. (k v).same }

-- A step after changes that touch no collection.
after :
    (fan : ℕ) (w : Bool) (item : ParsedItem) (t : ItemType) (g g' : Graph) (r : ℕ × Graph)
    → IsGraph g
    → Untouched g g'
    → (IsGraph g' → Step fan w item t g' r)
    → Step fan w item t g r
after fan w item t g g' r v u s =
    let s' = s (u.graph v) in
    record {
      graph = s'.graph;
      same = s'.same ∙ ap (collect fan w (record item { item_type = t })) (u.same v);
      count =
          s'.count
          ∙ ap (λ (col : Collection). if is_some (col fan t item.item_id) then 0 else 1) (u.same v);
    }

typed-Step :
    (fan : ℕ) (w : Bool) (item : ParsedItem) (t : ItemType) (band : Option ℕ) (g : Graph)
    → IsGraph g
    → Step fan w item t g (ingest_typed alone fan item w t band g)
unfolding ingest_typed
typed-Step fan w item album band g v = own-Step fan w item album g _ (album-Kept item.item_id _ g v)
typed-Step fan w item track band g v =
    let p = parent_stub alone item.album_id item.album_title band g in
    after fan w item track g p.1 _ v (stub-Untouched item.album_id item.album_title band g)
      (λ v'. own-Step fan w item track p.1 _ (track-Kept item.item_id _ p.1 v'))

item-Step :
    (fan : ℕ) (w : Bool) (item : ParsedItem) (g : Graph)
    → IsGraph g
    → Step fan w item item.item_type g (ingest_item alone fan w item g)
unfolding ingest_item get_or_create_band
item-Step fan w item g v =
    let b = band_for alone item.band item.band.bandcamp_id g in
    after fan w item item.item_type g b.1 _ v (band-Untouched item.band item.band.bandcamp_id g)
      (typed-Step fan w item item.item_type b.0 b.1)

-- A page of a fan's items, read with no other worker on well-formed tables, leaves them well-formed,
-- with the collection that the page's items make of the one that was there, and its count is that
-- of the items that were new.
pub ingest_items_batch-refines :
    (fan : ℕ) (wishlist : Bool) (items : List ParsedItem) (g : Graph)
    → IsGraph g
    → ((view (ingest_items_batch alone fan wishlist items g).1
          ≡ collect_all fan wishlist items (view g))
        × ((ingest_items_batch alone fan wishlist items g).0
            ≡ count_new fan wishlist items (view g)))
      × IsGraph (ingest_items_batch alone fan wishlist items g).1
unfolding ingest_items_batch collect_all count_new
ingest_items_batch-refines fan w [] g v = ((refl, refl), v)
ingest_items_batch-refines fan w (item ∷ items) g v =
    let s = item-Step fan w item g v in
    let g' = (ingest_item alone fan w item g).1 in
    let ((same, count), v') = ingest_items_batch-refines fan w items g' s.graph in
    (
      (
        same ∙ ap (collect_all fan w items) s.same,
        ground (arith, s.count, count ∙ ap (count_new fan w items) s.same),
      ),
      v',
    )

-- A page of a fan's items that is read again, with no other worker and on well-formed tables, counts
-- no new item and leaves the fans' collections as they were.
pub ingest_items_batch-again :
    (fan : ℕ) (wishlist : Bool) (items : List ParsedItem) (g : Graph)
    → IsGraph g
    → let first = (ingest_items_batch alone fan wishlist items g).1 in
      ((ingest_items_batch alone fan wishlist items first).0 ≡ 0)
      × (view (ingest_items_batch alone fan wishlist items first).1 ≡ view first)
ingest_items_batch-again fan w items g v =
    let ((same, count), v') = ingest_items_batch-refines fan w items g v in
    let first = (ingest_items_batch alone fan w items g).1 in
    let ((same', count'), _) = ingest_items_batch-refines fan w items first v' in
    (
      count' ∙ (ap (count_new fan w items) same ∙ count_new-again fan w w items (view g)),
      same'
          ∙ (ap (collect_all fan w items) same
              ∙ (fun_ext₃ (collect_all-again fan w items (view g)) ∙ sym same)),
    )
