-- ===== src/Api/Likes.antt =====
-- backend/app/api/likes.py. The session's user is an argument; a handler answers with its result and
-- the tables as it leaves them.
pub mod Once
pub mod Answers
pub mod Lasting
use bandcamp_curate.Base.{
  ℕ, suc, Bool, true, false, ◌&&◌, not, Option, none, some, List, [], ◌∷◌, ◌++◌, map, ◌==◌, ltb,
  if◌then◌else◌, Text, find, where_rows, is_some, opt_is, opt_same, Result, ok, raise, invalid,
  not_found, internal,
}
use bandcamp_curate.Curation.Tables.{Release, Band, Like, Library}
use bandcamp_curate.Curation.Scoring.{Floats, ItemType, album, track, ScoredItem}
use bandcamp_curate.Scans.Tables.{Store}
use bandcamp_curate.Api.Ownership.{scalar_one_or_none, text_or, in_band, pruned, bumped}

pub record LikeIn : Type 0 where
  pub album_id : Option ℕ
  pub track_id : Option ℕ

pub record LikeOut : Type 0 where
  pub id : ℕ
  pub item_type : ItemType
  pub album_id : Option ℕ
  pub track_id : Option ℕ
  pub title : Option Text
  pub band_name : Option Text
  pub url : Option Text

-- The validator `_one_of`.
unfoldable pub one_of : LikeIn → Bool
one_of p = elim (is_some p.album_id) [
  | true ↦ not (is_some p.track_id)
  | false ↦ is_some p.track_id
]

unfoldable pub item_type_of : Option ℕ → ItemType
item_type_of none = track
item_type_of (some _) = album

-- An outer join on a primary key.
unfoldable pub release_at : Option ℕ → List Release → Option Release
release_at id = find (λ r. opt_is id r.id)

unfoldable pub band_at : Option ℕ → List Band → Option Band
band_at id = find (λ b. opt_is id b.id)

-- A column of a row that may be missing.
abbrev pub column : {A : Type 0} → (A → Option Text) → Option A → Option Text
column f none = none
column f (some r) = f r

abbrev pub band_ref : Option Release → Option ℕ
band_ref none = none
band_ref (some r) = r.band_id

unfoldable pub like_row : Library → Like → LikeOut
unfolding item_type_of release_at band_at text_or
like_row lib l =
    let a = release_at l.album_id lib.albums in
    let t = release_at l.track_id lib.tracks in
    record {
      id = l.id;
      item_type = item_type_of l.album_id;
      album_id = l.album_id;
      track_id = l.track_id;
      title = text_or (column (λ r. r.title) a) (column (λ r. r.title) t);
      band_name =
          text_or (column (λ b. b.name) (band_at (band_ref a) lib.bands))
            (column (λ b. b.name) (band_at (band_ref t) lib.bands));
      url = text_or (column (λ r. r.url) a) (column (λ r. r.url) t);
    }

-- `ORDER BY likes.id DESC`
unfoldable pub place_like : LikeOut → List LikeOut → List LikeOut
place_like l [] = l ∷ []
place_like l (k ∷ rows) =
    let rest = place_like l rows in if ltb l.id k.id then k ∷ rest else l ∷ k ∷ rows

unfoldable pub sort_likes : List LikeOut → List LikeOut
unfolding place_like
sort_likes [] = []
sort_likes (l ∷ rows) = place_like l (sort_likes rows)

-- `_like_rows`, which is also the endpoint `list_likes`.
unfoldable pub like_rows : ℕ → Library → List LikeOut
unfolding like_row sort_likes
like_rows user lib =
    sort_likes (map (like_row lib) (where_rows (λ (l : Like). l.user_id == user) lib.likes))

-- The like of a user for a payload's item.
unfoldable pub is_like : ℕ → LikeIn → Like → Bool
is_like user p l =
    (l.user_id == user) && (opt_same l.album_id p.album_id && opt_same l.track_id p.track_id)

-- The payload's row in `albums` or `tracks`.
unfoldable pub liked_row : LikeIn → Library → Option Release
unfolding release_at
liked_row p lib = elim p.album_id [
  | some a ↦ release_at (some a) lib.albums
  | none ↦ release_at p.track_id lib.tracks
]

unfoldable pub add_like : ℕ → LikeIn → Option Like → Library → Library
add_like user p (some _) lib = lib
add_like user p none lib = record lib {
  likes =
      lib.likes
      ++ record {
        id = lib.next_like_id;
        user_id = user;
        album_id = p.album_id;
        track_id = p.track_id;
      }
        ∷ [];
  next_like_id = suc lib.next_like_id;
}

-- The row that is sent back; without one, 500.
unfoldable pub like_answer : ℕ → LikeIn → Library → Result LikeOut
unfolding like_rows
like_answer user p lib =
    elim (find (λ (r : LikeOut). opt_same r.album_id p.album_id && opt_same r.track_id p.track_id)
      (like_rows user lib)) [ some r ↦ ok r | none ↦ raise internal ]

abbrev missing : Option ℕ → Bool
missing id = not (is_some id)

module _ {fl : Floats} where
  -- `album_id = … AND track_id = …`, where one of the two is NULL.
  unfoldable pub same_item : LikeIn → ScoredItem fl → Bool
  same_item p i = elim i.item_type [
    | album ↦ opt_is p.album_id i.ident && missing p.track_id
    | track ↦ opt_is p.track_id i.ident && missing p.album_id
  ]

  -- What a like takes out of the feed: the band's items, or the item if it has no band.
  unfoldable pub dismissed : LikeIn → Library → ScoredItem fl → Bool
  unfolding liked_row in_band same_item
  dismissed p lib = elim (band_ref (liked_row p lib)) [
    | some band ↦ in_band band lib
    | none ↦ same_item p
  ]

  -- What is committed.
  unfoldable pub write_like : ℕ → LikeIn → Option Like → Store fl → Store fl
  unfolding add_like dismissed pruned
  write_like user p existing st =
      pruned user (dismissed p st.library)
        (record st { library = add_like user p existing st.library })

  -- From what the query of the existing like gave.
  unfoldable pub commit_like :
      ℕ → LikeIn → Result (Option Like) → Store fl → Result LikeOut × Store fl
  unfolding write_like like_answer
  commit_like user p (raise e) st = (raise e, st)
  commit_like user p (ok existing) st =
      let st' = write_like user p existing st in (like_answer user p st'.library, st')

  unfoldable pub like : ℕ → LikeIn → Store fl → Result LikeOut × Store fl
  unfolding one_of liked_row is_like scalar_one_or_none commit_like
  like user p st =
      if not (one_of p)
      then (raise invalid, st)
      else if not (is_some (liked_row p st.library))
      then (raise not_found, st)
      else commit_like user p (scalar_one_or_none (where_rows (is_like user p) st.library.likes)) st

  unfoldable pub delete_like : ℕ → Store fl → Store fl
  delete_like id st = record st {
    library = record (st.library) {
      likes = where_rows (λ (l : Like). not (l.id == id)) st.library.likes;
    };
  }

  unfoldable pub remove_like : ℕ → Result (Option Like) → Store fl → Result Bool × Store fl
  unfolding delete_like bumped
  remove_like user (raise e) st = (raise e, st)
  remove_like user (ok none) st = (raise not_found, st)
  remove_like user (ok (some l)) st = (ok true, bumped user (delete_like l.id st))

  unfoldable pub unlike : ℕ → LikeIn → Store fl → Result Bool × Store fl
  unfolding one_of is_like scalar_one_or_none remove_like
  unlike user p st =
      if not (one_of p)
      then (raise invalid, st)
      else remove_like user (scalar_one_or_none (where_rows (is_like user p) st.library.likes)) st
