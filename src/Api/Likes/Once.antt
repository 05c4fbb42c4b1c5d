-- ===== src/Api/Likes/Once.antt =====
-- That a user likes an item once stays true (backend/app/api/likes.py).
use bandcamp_curate.Base.{
  ℕ, true, not, Option, none, some, [], ◌∷◌, ◌≡◌, refl, sym, ◌==◌, ==_iff, count_rows,
  count_rows-append, count_rows-weaken, count_rows-where_rows_le, length-where_rows, where_rows,
  is_some, opt_same→≡, Result, ok, raise, arith, Bool-cases, inl, inr,
}
use bandcamp_curate.Curation.Tables.{Like, Library}
use bandcamp_curate.Curation.Scoring.{Floats}
use bandcamp_curate.Scans.Tables.{Store}
use bandcamp_curate.Api.Ownership.Single.{none_found}
use bandcamp_curate.Api.Ownership.{scalar_one_or_none, pruned, bumped}
use bandcamp_curate.Api.Likes.{
  LikeIn, one_of, liked_row, is_like, add_like, write_like, commit_like, like, delete_like,
  remove_like, unlike,
}
use bandcamp_curate.Api.Likes.Answers.{IsUnique}

abbrev added : ℕ → ℕ → LikeIn → Like
added id user p = record { id = id; user_id = user; album_id = p.album_id; track_id = p.track_id }

-- A like that was added answers for the same user and the same item only.
is_like-added :
    (id user u : ℕ) (p q : LikeIn) (l : Like)
    → is_like u q (added id user p) ≡ true
    → is_like u q l ≡ true
    → is_like user p l ≡ true
unfolding is_like
is_like-added id user u p q l h mine =
    rw
      (
        opt_same→≡ p.album_id q.album_id (ground (arith, h)),
        opt_same→≡ p.track_id q.track_id (ground (arith, h)),
      )
      (ground (arith, h, mine, ==_iff user u))

add_like-IsUnique :
    (user : ℕ) (p : LikeIn) (existing : Option Like) (lib : Library)
    → scalar_one_or_none (where_rows (is_like user p) lib.likes) ≡ ok existing
    → IsUnique lib.likes
    → IsUnique (add_like user p existing lib).likes
unfolding add_like IsUnique
add_like-IsUnique user p (some l) lib h unique = unique
add_like-IsUnique user p none lib h unique = λ u q.
    let free : count_rows (is_like user p) lib.likes ≡ 0 =
      rw (sym (length-where_rows (is_like user p) lib.likes)) (none_found _ h) in
    let grown = count_rows-append (is_like u q) lib.likes (added lib.next_like_id user p ∷ []) in
    elim (Bool-cases (is_like u q (added lib.next_like_id user p))) [
      | inl e ↦ ground (
        arith,
        grown,
        free,
        e,
        count_rows-weaken (is_like u q) (is_like user p) lib.likes
            (λ l mine. is_like-added lib.next_like_id user u p q l e mine),
      )
      | inr e ↦ ground (arith, grown, e, unique u q)
    ]

module _ {fl : Floats} where
  commit_like-IsUnique :
      (user : ℕ) (p : LikeIn) (found : Result (Option Like)) (st : Store fl)
      → scalar_one_or_none (where_rows (is_like user p) st.library.likes) ≡ found
      → IsUnique st.library.likes
      → IsUnique (commit_like user p found st).1.library.likes
  unfolding commit_like write_like pruned
  commit_like-IsUnique user p (raise e) st h unique = unique
  commit_like-IsUnique user p (ok existing) st h unique =
      add_like-IsUnique user p existing st.library h unique

  remove_like-IsUnique :
      (user : ℕ) (found : Result (Option Like)) (st : Store fl)
      → IsUnique st.library.likes
      → IsUnique (remove_like user found st).1.library.likes
  unfolding remove_like delete_like bumped IsUnique
  remove_like-IsUnique user (raise e) st unique = unique
  remove_like-IsUnique user (ok none) st unique = unique
  remove_like-IsUnique user (ok (some l)) st unique = λ u q. ground (
    arith,
    unique u q,
    count_rows-where_rows_le (is_like u q) (λ (k : Like). not (k.id == l.id)) st.library.likes,
  )

  -- Whatever a request to like or unlike holds, and however it ends: if no user likes an item twice
  -- before it, no user does after it.
  pub likes-IsUnique :
      (user : ℕ) (p : LikeIn) (st : Store fl)
      → IsUnique st.library.likes
      → IsUnique (like user p st).1.library.likes × IsUnique (unlike user p st).1.library.likes
  unfolding like unlike
  likes-IsUnique user p st unique =
      let found = scalar_one_or_none (where_rows (is_like user p) st.library.likes) in
      elim (Bool-cases (one_of p)) [
        | inr e ↦ rw e (unique, unique)
        | inl e ↦
            let unliked = remove_like-IsUnique user found st unique in
            elim (Bool-cases (is_some (liked_row p st.library))) [
              | inr f ↦ rw (e, f) (unique, unliked)
              | inl f ↦ rw (e, f) (commit_like-IsUnique user p found st refl unique, unliked)
            ]
      ]
