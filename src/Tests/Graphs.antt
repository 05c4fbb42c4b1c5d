-- ===== src/Tests/Graphs.antt =====
-- The theorems on backend/app/bandcamp/mapper.py at a graph with one album, one track and one edge.
use bandcamp_curate.Base.{
  ℕ, ◌≤◌, ◌≡◌, refl, true, false, none, some, List, [], ◌∷◌, Text, codes, arith, raise, integrity,
}
use bandcamp_curate.Curation.Scoring.{ItemType, album, track}
use bandcamp_curate.Graph.Tables.{Graph, AlbumRow, TrackRow, ParsedItem, alone}
use bandcamp_curate.Graph.Keyed.Laws.{IsKeyed, id_of}
use bandcamp_curate.Graph.Fans.{get_or_create_fan, get_or_create_supporter_fan, new_supporter}
use bandcamp_curate.Graph.Ingest.{ingest_items_batch}
use bandcamp_curate.Graph.Edges.{same_type, same_ref, is_item}
use bandcamp_curate.Graph.Collection.{
  IsGraph, view, collect_all, count_new, edge_of, next_of, is_edge,
}
use bandcamp_curate.Graph.Ingest.Refine.{ingest_items_batch-refines}
use bandcamp_curate.Graph.Ingest.Fans.{get_or_create_fan-clash}

abbrev pub graph : Graph
graph = record {
  bands = record { rows = []; next_id = 1 };
  albums = record {
    rows =
        record {
          id = 1;
          bandcamp_id = some 5;
          url = none;
          title = none;
          band_id = none;
          art_id = none;
        }
        ∷ [];
    next_id = 2;
  };
  tracks = record { rows = []; next_id = 1 };
  fans = record { rows = []; next_id = 1 };
  tags = record { rows = []; next_id = 1 };
  fan_items =
      record {
        fan_id = 7;
        item_type = album;
        album_id = some 1;
        track_id = none;
        is_wishlist = true;
      }
      ∷ [];
  follows = [];
  album_tags = [];
  track_tags = [];
  band_tags = [];
  album_supporters = [];
  track_supporters = [];
}

graph-edges :
    (f i : ℕ) (t : ItemType) → next_of t graph ≤ i → edge_of f t graph.fan_items (some i) ≡ none
unfolding edge_of is_edge is_item same_type same_ref
graph-edges f i album h = ground (arith, h)
graph-edges f i track h = ground (arith, h)

graph-albums : IsKeyed (λ (r : AlbumRow). r.id) (λ r. r.bandcamp_id) graph.albums
unfolding id_of
graph-albums = record {
  below = λ b i h. ground (arith, h);
  one_key = λ b c i h k. ground (arith, h, k);
}

graph-tracks : IsKeyed (λ (r : TrackRow). r.id) (λ r. r.bandcamp_id) graph.tracks
unfolding id_of
graph-tracks = record {
  below = λ b i h. absurd (ground (arith, h));
  one_key = λ b c i h k. absurd (ground (arith, h));
}

graph-IsGraph : IsGraph graph
graph-IsGraph = record {
  albums_keyed = graph-albums;
  tracks_keyed = graph-tracks;
  edges_below = graph-edges;
}

abbrev known : ParsedItem
known = record {
  item_id = 5;
  item_type = album;
  band = record { bandcamp_id = some 8; name = none; url = none };
  title = none;
  url = none;
  album_id = none;
  album_title = none;
  art_id = none;
}

abbrev fresh : ParsedItem
fresh = record known { item_id = 9; item_type = track; album_id = some 6 }

abbrev page : List ParsedItem
page = known ∷ fresh ∷ fresh ∷ []

-- An album that was a wish, and a new track, twice.
ingest_items_batch-refines_example :
    ((view (ingest_items_batch alone 7 false page graph).1 ≡ collect_all 7 false page (view graph))
      × ((ingest_items_batch alone 7 false page graph).0 ≡ count_new 7 false page (view graph)))
    × IsGraph (ingest_items_batch alone 7 false page graph).1
ingest_items_batch-refines_example = ingest_items_batch-refines 7 false page graph graph-IsGraph

bought : view (ingest_items_batch alone 7 false page graph).1 7 album 5 ≡ some false
unfolding view ingest_items_batch edge_of is_edge is_item same_type same_ref id_of
bought = refl

one_new : (ingest_items_batch alone 7 false page graph).0 ≡ 1
unfolding ingest_items_batch is_item same_type same_ref
one_new = refl

abbrev ann : Text
ann = codes "ann"

-- A fan whom a page named without an id.
get_or_create_fan-clash_example :
    let g = (get_or_create_supporter_fan alone none ann none graph).1 in
    get_or_create_fan alone 3 ann none none true g ≡ (raise integrity, g)
unfolding get_or_create_supporter_fan new_supporter
get_or_create_fan-clash_example =
    get_or_create_fan-clash 3 ann none none none true graph (new_supporter none ann none 1) refl
      refl
