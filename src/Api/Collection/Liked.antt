-- ===== src/Api/Collection/Liked.antt =====
-- A like (backend/app/api/likes.py) in the collection of the user (backend/app/api/collection.py).
use bandcamp_curate.Base.{
  count_rows-sort_rows, ℕ, ◌≤◌, ◌<◌, Bool, true, ◌&&◌, List, [], ◌∷◌, ◌≡◌, map, ◌==◌, any,
  count_rows, where_rows, length, opt_same, ok, arith,
}
use bandcamp_curate.Curation.Tables.{Like, Library}
use bandcamp_curate.Curation.Scoring.{Floats}
use bandcamp_curate.Scans.Tables.{User, Store}
use bandcamp_curate.Api.Ownership.{pruned}
use bandcamp_curate.Api.Likes.{LikeIn, LikeOut, is_like, write_like, like}
use bandcamp_curate.Api.Likes.Lasting.{add_like-any, like-answered}
use bandcamp_curate.Api.Collection.{
  comes_before, max_items, CollectionItemOut, CollectionOut, Collation, item_row, like_edge,
  liked_edges, sections, collection,
}
use bandcamp_curate.Api.Collection.Whole.{items_short}

-- A row of the item of a like.
abbrev pub shows : LikeIn → CollectionItemOut → Bool
shows p r = opt_same r.album_id p.album_id && opt_same r.track_id p.track_id

count_rows-liked_edges :
    (user : ℕ) (p : LikeIn) (lib : Library) (likes : List Like)
    → any (is_like user p) likes ≡ true
    → 0
      < count_rows
          (shows p)
          (map (item_row lib) (map like_edge (where_rows (λ (l : Like). l.user_id == user) likes)))
unfolding is_like item_row
count_rows-liked_edges user p lib [] h = ground arith
count_rows-liked_edges user p lib (l ∷ likes) h =
    ground (arith, count_rows-liked_edges user p lib likes, h)

module _ (c : Collation) where
  sections-liked :
      (user : User) (p : LikeIn) (limit : ℕ) (lib : Library)
      → any (is_like user.id p) lib.likes ≡ true
      → length (liked_edges user.id lib) ≤ limit
      → 0 < count_rows (shows p) (sections c user limit lib).liked
  unfolding sections liked_edges
  sections-liked user p limit lib h short =
      rw
        (
          items_short c lib limit (liked_edges user.id lib) short,
          count_rows-sort_rows (comes_before c) (shows p)
              (map (item_row lib) (liked_edges user.id lib)),
        )
        (count_rows-liked_edges user.id p lib lib.likes h)

  -- When a like is answered, the collection of the user, read from the tables that it leaves with a
  -- limit that is no lower than the number of the user's likes, has the item in the liked list.
  pub like-collected :
      {fl : Floats} (user : User) (p : LikeIn) (limit : ℕ) (st : Store fl) (out : LikeOut)
      → (like user.id p st).0 ≡ ok out
      → 0 < limit
      → limit ≤ max_items
      → length (liked_edges user.id (like user.id p st).1.library) ≤ limit
      → (col : CollectionOut) × (collection c user limit (like user.id p st).1.library ≡ ok col)
        × (0 < count_rows (shows p) col.liked)
  unfolding collection write_like pruned
  like-collected user p limit st out h positive bounded short =
      let (existing, queried, written) = like-answered user.id p st out h in
      (
        sections c user limit (like user.id p st).1.library,
        ground arith,
        sections-liked user p limit (like user.id p st).1.library
            (rw written (add_like-any user.id p existing st.library queried)) short,
      )
