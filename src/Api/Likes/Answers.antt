-- ===== src/Api/Likes/Answers.antt =====
-- How a like ends, and that an item is liked once (backend/app/api/likes.py).
use bandcamp_curate.Base.{
  ℕ, ◌≤◌, Bool, true, false, ◌&&◌, ◌||◌, Option, none, List, [], ◌∷◌, map, ◌⊎◌, ◌≡◌, refl, ◌==◌,
  any, any-find, find_sound, count_rows, where_rows, opt_same, opt_same→≡, Result, ok, raise,
  invalid, not_found, arith, Bool-cases, Option-cases, inl, inr,
}
use bandcamp_curate.Curation.Tables.{Like, Library}
use bandcamp_curate.Curation.Scoring.{Floats}
use bandcamp_curate.Scans.Tables.{Store}
use bandcamp_curate.Api.Ownership.Single.{at_most_one}
use bandcamp_curate.Api.Ownership.{scalar_one_or_none, pruned}
use bandcamp_curate.Api.Likes.{
  LikeIn, LikeOut, one_of, liked_row, is_like, add_like, like_row, place_like, sort_likes,
  like_rows, like_answer, write_like, commit_like, like,
}
use bandcamp_curate.Api.Likes.Lasting.{add_like-any}

-- `r.album_id == payload.album_id and r.track_id == payload.track_id`
abbrev answers : LikeIn → LikeOut → Bool
answers p r = opt_same r.album_id p.album_id && opt_same r.track_id p.track_id

any-place_like :
    (test : LikeOut → Bool) (l : LikeOut) (rows : List LikeOut)
    → any test (place_like l rows) ≡ (test l || any test rows)
unfolding place_like
any-place_like test l [] = refl
any-place_like test l (k ∷ rows) = ground (arith, any-place_like test l rows)

any-sort_likes :
    (test : LikeOut → Bool) (rows : List LikeOut) → any test (sort_likes rows) ≡ any test rows
unfolding sort_likes
any-sort_likes test [] = refl
any-sort_likes test (l ∷ rows) =
    ground (arith, any-place_like test l (sort_likes rows), any-sort_likes test rows)

any-like_row :
    (user : ℕ) (p : LikeIn) (lib : Library) (likes : List Like)
    → any (is_like user p) likes ≡ true
    → any (answers p) (map (like_row lib) (where_rows (λ (l : Like). l.user_id == user) likes))
      ≡ true
unfolding is_like like_row
any-like_row user p lib [] h = ground arith
any-like_row user p lib (l ∷ likes) h = ground (arith, any-like_row user p lib likes, h)

-- A like that is in the table is found among the rows that are sent back.
like_answer-found :
    (user : ℕ) (p : LikeIn) (lib : Library)
    → any (is_like user p) lib.likes ≡ true
    → (r : LikeOut) × (like_answer user p lib ≡ ok r)
      × (r.album_id ≡ p.album_id)
      × (r.track_id ≡ p.track_id)
unfolding like_answer like_rows
like_answer-found user p lib liked =
    let rows = map (like_row lib) (where_rows (λ (l : Like). l.user_id == user) lib.likes) in
    let here : any (answers p) (sort_likes rows) ≡ true =
      rw (any-sort_likes (answers p) rows) (any-like_row user p lib lib.likes liked) in
    let (r, found) = any-find (answers p) (sort_likes rows) here in
    let same : answers p r ≡ true = find_sound (answers p) (sort_likes rows) found in
    (
      r,
      rw (found, like_answer) refl,
      opt_same→≡ r.album_id p.album_id (ground (arith, same)),
      opt_same→≡ r.track_id p.track_id (ground (arith, same)),
    )

-- No user likes an item twice: the unique indexes of `likes`.
unfoldable pub IsUnique : List Like → Type 0
unfolding is_like
IsUnique likes = (user : ℕ) → (p : LikeIn) → count_rows (is_like user p) likes ≤ 1

module _ {fl : Floats} where
  -- What `like` may end with: 422 for a payload without exactly one id, 404 for an item that is not
  -- there, both without a change; else the user likes the item, and the answer is for it.
  unfoldable pub Ended : ℕ → LikeIn → Store fl → Result LikeOut × Store fl → Type 0
  Ended user p st out =
      (one_of p ≡ false) × (out ≡ (raise invalid, st))
      ⊎ ((one_of p ≡ true) × (liked_row p st.library ≡ none) × (out ≡ (raise not_found, st))
          ⊎ (any (is_like user p) out.1.library.likes ≡ true)
            × ((r : LikeOut) × (out.0 ≡ ok r)
                × (r.album_id ≡ p.album_id)
                × (r.track_id ≡ p.track_id)))

  commit_like-any :
      (user : ℕ) (p : LikeIn) (st : Store fl) (existing : Option Like)
      → scalar_one_or_none (where_rows (is_like user p) st.library.likes) ≡ ok existing
      → (any (is_like user p) (commit_like user p (ok existing) st).1.library.likes ≡ true)
        × ((r : LikeOut) × ((commit_like user p (ok existing) st).0 ≡ ok r)
            × (r.album_id ≡ p.album_id)
            × (r.track_id ≡ p.track_id))
  unfolding commit_like write_like pruned
  commit_like-any user p st existing queried =
      let liked = add_like-any user p existing st.library queried in
      (liked, like_answer-found user p (add_like user p existing st.library) liked)

  -- Where no user likes an item twice, `like` ends in one of these ways; so the answer 500 for a
  -- like that was not stored never comes.
  pub like-Ended :
      (user : ℕ) (p : LikeIn) (st : Store fl)
      → IsUnique st.library.likes
      → Ended user p st (like user p st)
  unfolding like Ended IsUnique
  like-Ended user p st unique = elim (Bool-cases (one_of p)) [
    | inr e ↦ inl (e, rw e refl)
    | inl e ↦ elim (Option-cases (liked_row p st.library)) [
      | inl f ↦ inr (inl (e, f, rw (e, f) refl))
      | inr (row, f) ↦
          let (existing, queried) = at_most_one (is_like user p) st.library.likes (unique user p) in
          rw (e, f, queried) (inr (inr (commit_like-any user p st existing queried)))
    ]
  ]
