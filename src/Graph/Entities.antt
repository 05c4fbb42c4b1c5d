-- ===== src/Graph/Entities.antt =====
-- The `get_or_create_…` of backend/app/bandcamp/mapper.py.
use bandcamp_curate.Base.{ℕ, zero, suc, Bool, Option, none, some, [], ◌∷◌, Text, same_text, opt_is}
use bandcamp_curate.Graph.Keyed.{get_or_create}
use bandcamp_curate.Curation.Tables.{unknown}
use bandcamp_curate.Graph.Tables.{BandRow, AlbumRow, TrackRow, TagRow, Graph, Workers, ParsedBand}

-- `if new and not old: old = new`, for texts: an empty one counts as missing.
unfoldable pub fill_text : Option Text → Option Text → Option Text
fill_text (some (c ∷ s)) none = some (c ∷ s)
fill_text (some (c ∷ s)) (some []) = some (c ∷ s)
fill_text new old = old

-- The same for numbers, where zero counts as missing.
unfoldable pub fill_number : Option ℕ → Option ℕ → Option ℕ
fill_number (some (suc n)) none = some (suc n)
fill_number (some (suc n)) (some zero) = some (suc n)
fill_number new old = old

-- The same for the row of another table, which is never missing where it is given.
unfoldable pub fill_ref : Option ℕ → Option ℕ → Option ℕ
fill_ref (some n) none = some n
fill_ref (some n) (some zero) = some n
fill_ref new old = old

unfoldable pub enrich_band : ParsedBand → BandRow → BandRow
unfolding fill_text
enrich_band pb r = record r { name = fill_text pb.name r.name; url = fill_text pb.url r.url }

abbrev is_band : ℕ → BandRow → Bool
is_band b r = opt_is r.bandcamp_id b

unfoldable pub new_band : ℕ → ParsedBand → ℕ → BandRow
new_band b pb id = record {
  id = id;
  bandcamp_id = some b;
  url = pb.url;
  name = pb.name;
  kind = unknown;
}

-- `get_or_create_band`: the id of the row, none without a Bandcamp id.
unfoldable pub band_for : Workers → ParsedBand → Option ℕ → Graph → Option ℕ × Graph
unfolding enrich_band new_band get_or_create
band_for w pb none g = (none, g)
band_for w pb (some b) g =
    let (r, bands) =
      get_or_create (is_band b) (enrich_band pb) (new_band b pb) w.to_bands g.bands in
    (some r.id, record g { bands = bands })

unfoldable pub get_or_create_band : Workers → ParsedBand → Graph → Option ℕ × Graph
unfolding band_for
get_or_create_band w pb g = band_for w pb pb.bandcamp_id g

-- The keyword arguments of `get_or_create_album`; `band` is the id of the band's row.
pub record AlbumArgs : Type 0 where
  pub url : Option Text
  pub title : Option Text
  pub band : Option ℕ
  pub art_id : Option ℕ

unfoldable pub enrich_album : AlbumArgs → AlbumRow → AlbumRow
unfolding fill_text fill_number fill_ref
enrich_album a r = record r {
  url = fill_text a.url r.url;
  title = fill_text a.title r.title;
  band_id = fill_ref a.band r.band_id;
  art_id = fill_number a.art_id r.art_id;
}

abbrev pub is_album : ℕ → AlbumRow → Bool
is_album b r = opt_is r.bandcamp_id b

unfoldable pub new_album : ℕ → AlbumArgs → ℕ → AlbumRow
new_album b a id = record {
  id = id;
  bandcamp_id = some b;
  url = a.url;
  title = a.title;
  band_id = a.band;
  art_id = a.art_id;
}

unfoldable pub get_or_create_album : Workers → ℕ → AlbumArgs → Graph → ℕ × Graph
unfolding enrich_album new_album get_or_create
get_or_create_album w b a g =
    let (r, albums) =
      get_or_create (is_album b) (enrich_album a) (new_album b a) w.to_albums g.albums in
    (r.id, record g { albums = albums })

pub record TrackArgs : Type 0 where
  pub url : Option Text
  pub title : Option Text
  pub band : Option ℕ
  pub album : Option ℕ
  pub art_id : Option ℕ
  pub track_num : Option ℕ
  pub duration : Option ℕ

unfoldable pub enrich_track : TrackArgs → TrackRow → TrackRow
unfolding fill_text fill_number fill_ref
enrich_track a r = record r {
  url = fill_text a.url r.url;
  title = fill_text a.title r.title;
  track_num = fill_number a.track_num r.track_num;
  duration = fill_number a.duration r.duration;
  band_id = fill_ref a.band r.band_id;
  album_id = fill_ref a.album r.album_id;
  art_id = fill_number a.art_id r.art_id;
}

abbrev pub is_track : ℕ → TrackRow → Bool
is_track b r = opt_is r.bandcamp_id b

unfoldable pub new_track : ℕ → TrackArgs → ℕ → TrackRow
new_track b a id = record {
  id = id;
  bandcamp_id = some b;
  url = a.url;
  title = a.title;
  album_id = a.album;
  band_id = a.band;
  art_id = a.art_id;
  track_num = a.track_num;
  duration = a.duration;
}

unfoldable pub get_or_create_track : Workers → ℕ → TrackArgs → Graph → ℕ × Graph
unfolding enrich_track new_track get_or_create
get_or_create_track w b a g =
    let (r, tracks) =
      get_or_create (is_track b) (enrich_track a) (new_track b a) w.to_tracks g.tracks in
    (r.id, record g { tracks = tracks })

unfoldable pub get_or_create_tag : Workers → Text → Graph → ℕ × Graph
unfolding get_or_create
get_or_create_tag w name g =
    let (r, tags) =
      get_or_create (λ (r : TagRow). same_text r.name name) (λ r. r)
        (λ id. record { id = id; name = name }) w.to_tags g.tags in
    (r.id, record g { tags = tags })
