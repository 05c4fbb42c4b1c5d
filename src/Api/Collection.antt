-- ===== src/Api/Collection.antt =====
-- backend/app/api/collection.py: the signed-in user's own items. The rows of `fan_items` and `likes`
-- stand in the order of their ids; `item_type` says which of the two ids a row has.
pub mod Whole
pub mod Liked
use bandcamp_curate.Base.{
  sort_rows, ℕ, suc, Bool, false, ◌||◌, ◌&&◌, not, Option, none, some, List, [], ◌∷◌, map, ◌==◌,
  ltb, if◌then◌else◌, Text, where_rows, length, take, Result, ok, raise, invalid,
}
use bandcamp_curate.Curation.Tables.{Release, Band, FanItem, Like, Library}
use bandcamp_curate.Curation.Scoring.{ItemType}
use bandcamp_curate.Scans.Tables.{User}
use bandcamp_curate.Api.Likes.{item_type_of, release_at, band_at, band_ref, column}
use bandcamp_curate.Api.Feed.{art_url}

abbrev pub max_items : ℕ
max_items = 20000

pub record CollectionItemOut : Type 0 where
  pub item_type : ItemType
  pub album_id : Option ℕ
  pub track_id : Option ℕ
  pub title : Option Text
  pub band_name : Option Text
  pub url : Option Text
  pub art_id : Option ℕ
  pub art_url : Option Text

pub record CollectionOut : Type 0 where
  pub owned : List CollectionItemOut
  pub wishlist : List CollectionItemOut
  pub liked : List CollectionItemOut
  pub truncated : Bool

-- The columns that `FanItem` and `Like` share.
pub record Edge : Type 0 where
  pub album_id : Option ℕ
  pub track_id : Option ℕ

abbrev pub item_edge : FanItem → Edge
item_edge i = record { album_id = i.album_id; track_id = i.track_id }

abbrev pub like_edge : Like → Edge
like_edge l = record { album_id = l.album_id; track_id = l.track_id }

-- The database's `lower` and its order of texts: whether the first comes before the second.
pub record Collation : Type 0 where
  pub lower : Text → Text
  pub before : Text → Text → Bool

unfoldable pub coalesce : {A : Type 0} → Option A → Option A → Option A
coalesce none b = b
coalesce (some a) b = some a

unfoldable pub text_of : Option Text → Text
text_of none = []
text_of (some t) = t

abbrev art_of : Option Release → Option ℕ
art_of none = none
art_of (some r) = r.art_id

-- The columns that `_items_query` selects for a row, and the URL of the art.
unfoldable pub item_row : Library → Edge → CollectionItemOut
unfolding item_type_of release_at band_at coalesce art_url
item_row lib e =
    let a = release_at e.album_id lib.albums in
    let t = release_at e.track_id lib.tracks in
    let art = coalesce (art_of a) (art_of t) in
    record {
      item_type = item_type_of e.album_id;
      album_id = e.album_id;
      track_id = e.track_id;
      title = coalesce (column (λ r. r.title) a) (column (λ r. r.title) t);
      band_name =
          coalesce (column (λ b. b.name) (band_at (band_ref a) lib.bands))
            (column (λ b. b.name) (band_at (band_ref t) lib.bands));
      url = coalesce (column (λ r. r.url) a) (column (λ r. r.url) t);
      art_id = art;
      art_url = art_url art;
    }

-- `lower(coalesce(…, ''))` of the two keys of the order.
unfoldable pub artist_key : Collation → CollectionItemOut → Text
unfolding text_of
artist_key c r = c.lower (text_of r.band_name)

unfoldable pub title_key : Collation → CollectionItemOut → Text
unfolding text_of
title_key c r = c.lower (text_of r.title)

-- `_items_query` orders by artist and title: the first comes strictly before the second.
unfoldable pub comes_before : Collation → CollectionItemOut → CollectionItemOut → Bool
unfolding artist_key title_key
comes_before c a b =
    c.before (artist_key c a) (artist_key c b)
    || (not (c.before (artist_key c b) (artist_key c a))
        && c.before (title_key c a) (title_key c b))

-- `_items_query`; rows that tie stay in the order of their ids.
unfoldable pub items_query : Collation → Library → ℕ → List Edge → List CollectionItemOut
unfolding item_row comes_before sort_rows
items_query c lib limit edges = take limit (sort_rows (comes_before c) (map (item_row lib) edges))

-- `_items`
unfoldable pub items : Collation → Library → ℕ → List Edge → List CollectionItemOut × Bool
unfolding items_query
items c lib limit edges =
    let rows = items_query c lib (suc limit) edges in (take limit rows, ltb limit (length rows))

-- The WHERE of the three sections.
unfoldable pub owned_edges : ℕ → Library → List Edge
owned_edges me lib =
    map item_edge
      (where_rows (λ (i : FanItem). (i.fan_id == me) && not i.is_wishlist) lib.fan_items)

unfoldable pub wished_edges : ℕ → Library → List Edge
wished_edges me lib =
    map item_edge (where_rows (λ (i : FanItem). (i.fan_id == me) && i.is_wishlist) lib.fan_items)

unfoldable pub liked_edges : ℕ → Library → List Edge
liked_edges user lib = map like_edge (where_rows (λ (l : Like). l.user_id == user) lib.likes)

-- The two sections that hang off the Bandcamp fan, for a user with one and for a user without.
unfoldable pub fan_sections :
    Collation → Library → ℕ → Option ℕ → List CollectionItemOut × List CollectionItemOut × Bool
unfolding items owned_edges wished_edges
fan_sections c lib limit none = ([], [], false)
fan_sections c lib limit (some me) =
    let (owned, owned_cut) = items c lib limit (owned_edges me lib) in
    let (wishlist, wish_cut) = items c lib limit (wished_edges me lib) in
    (owned, wishlist, owned_cut || wish_cut)

unfoldable pub sections : Collation → User → ℕ → Library → CollectionOut
unfolding fan_sections items liked_edges
sections c user limit lib =
    let (owned, wishlist, cut) = fan_sections c lib limit user.fan_id in
    let (liked, liked_cut) = items c lib limit (liked_edges user.id lib) in
    record { owned = owned; wishlist = wishlist; liked = liked; truncated = cut || liked_cut }

-- The endpoint `collection`; a limit that is 0 or above MAX_ITEMS is answered 422.
unfoldable pub collection : Collation → User → ℕ → Library → Result CollectionOut
unfolding sections
collection c user limit lib =
    if limit == 0 || ltb max_items limit then raise invalid else ok (sections c user limit lib)
