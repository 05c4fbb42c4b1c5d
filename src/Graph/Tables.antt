-- ===== src/Graph/Tables.antt =====
-- The rows of the graph's tables (backend/app/db/models.py) and the records that the parser hands on
-- (backend/app/bandcamp/parse.py).
use bandcamp_curate.Base.{ℕ, Bool, Option, List, Text}
use bandcamp_curate.Curation.Tables.{BandKind, Link}
use bandcamp_curate.Curation.Scoring.{ItemType}
use bandcamp_curate.Graph.Keyed.{Keyed}

pub record BandRow : Type 0 where
  pub id : ℕ
  pub bandcamp_id : Option ℕ
  pub url : Option Text
  pub name : Option Text
  pub kind : BandKind

pub record AlbumRow : Type 0 where
  pub id : ℕ
  pub bandcamp_id : Option ℕ
  pub url : Option Text
  pub title : Option Text
  pub band_id : Option ℕ
  pub art_id : Option ℕ

-- A duration is kept in whole milliseconds.
pub record TrackRow : Type 0 where
  pub id : ℕ
  pub bandcamp_id : Option ℕ
  pub url : Option Text
  pub title : Option Text
  pub album_id : Option ℕ
  pub band_id : Option ℕ
  pub art_id : Option ℕ
  pub track_num : Option ℕ
  pub duration : Option ℕ

pub record FanRow : Type 0 where
  pub id : ℕ
  pub bandcamp_fan_id : Option ℕ
  pub username : Text
  pub url : Text
  pub name : Option Text
  pub is_me : Bool

pub record TagRow : Type 0 where
  pub id : ℕ
  pub name : Text

pub record FanItemRow : Type 0 where
  pub fan_id : ℕ
  pub item_type : ItemType
  pub album_id : Option ℕ
  pub track_id : Option ℕ
  pub is_wishlist : Bool

pub record FollowRow : Type 0 where
  pub fan_id : ℕ
  pub band_id : ℕ
  pub target_type : BandKind

pub record Graph : Type 0 where
  pub bands : Keyed BandRow
  pub albums : Keyed AlbumRow
  pub tracks : Keyed TrackRow
  pub fans : Keyed FanRow
  pub tags : Keyed TagRow
  pub fan_items : List FanItemRow
  pub follows : List FollowRow
  pub album_tags : List Link
  pub track_tags : List Link
  pub band_tags : List Link
  pub album_supporters : List Link
  pub track_supporters : List Link

-- What the other workers commit to each table while an insert is on its way.
pub record Workers : Type 0 where
  pub to_bands : Keyed BandRow → Keyed BandRow
  pub to_albums : Keyed AlbumRow → Keyed AlbumRow
  pub to_tracks : Keyed TrackRow → Keyed TrackRow
  pub to_fans : Keyed FanRow → Keyed FanRow
  pub to_tags : Keyed TagRow → Keyed TagRow
  pub to_fan_items : List FanItemRow → List FanItemRow
  pub to_follows : List FollowRow → List FollowRow
  pub to_links : List Link → List Link

-- No other worker.
abbrev pub alone : Workers
alone = record {
  to_bands = λ k. k;
  to_albums = λ k. k;
  to_tracks = λ k. k;
  to_fans = λ k. k;
  to_tags = λ k. k;
  to_fan_items = λ r. r;
  to_follows = λ r. r;
  to_links = λ r. r;
}

pub record ParsedBand : Type 0 where
  pub bandcamp_id : Option ℕ
  pub name : Option Text
  pub url : Option Text

-- `item_type` is "album", or anything else.
pub record ParsedItem : Type 0 where
  pub item_id : ℕ
  pub item_type : ItemType
  pub band : ParsedBand
  pub title : Option Text
  pub url : Option Text
  pub album_id : Option ℕ
  pub album_title : Option Text
  pub art_id : Option ℕ

pub record ParsedFan : Type 0 where
  pub fan_id : ℕ
  pub username : Text
  pub name : Option Text
  pub url : Option Text

-- What the fan page gives.
pub record FanCollection : Type 0 where
  pub fan : ParsedFan
  pub items : List ParsedItem
  pub wishlist : List ParsedItem
  pub follows : List ParsedBand
  pub last_token : Option Text
  pub more_available : Bool
  pub wishlist_last_token : Option Text
  pub wishlist_more_available : Bool
  pub follows_last_token : Option Text
  pub follows_more_available : Bool

pub record ParsedTrack : Type 0 where
  pub track_id : ℕ
  pub title : Option Text
  pub track_num : Option ℕ
  pub duration : Option ℕ
  pub url : Option Text

pub record ParsedAlbum : Type 0 where
  pub album_id : ℕ
  pub band : ParsedBand
  pub title : Option Text
  pub url : Option Text
  pub art_id : Option ℕ
  pub tags : List Text
  pub tracks : List ParsedTrack

pub record ParsedTrackPage : Type 0 where
  pub track_id : ℕ
  pub band : ParsedBand
  pub title : Option Text
  pub url : Option Text
  pub art_id : Option ℕ
  pub tags : List Text
  pub album_id : Option ℕ
  pub album_url : Option Text

pub record ParsedSupporter : Type 0 where
  pub username : Text
  pub fan_id : Option ℕ
  pub name : Option Text
  pub url : Option Text
