-- ===== src/Api/Likes/Lasting.antt =====
-- What a like does to the feed, at once and from then on (backend/app/api/likes.py and
-- backend/app/curation/engine.py).
use bandcamp_curate.Base.{
  opt_same_refl, ◌⊎◌, any-weaken, any_last, ℕ, Bool, true, false, ◌&&◌, Option, none, some, List,
  [], ◌∷◌, ◌≡◌, refl, ◌==◌, ==_iff, find, find_sound, any, contains, where_rows, is_some, opt_is,
  opt_same, Result, ok, raise, All, arith, Bool-cases, Option-cases, inl, inr,
}
use bandcamp_curate.Curation.Tables.{Release, Like, Library, scalar_set}
use bandcamp_curate.Curation.Exclusions.{liked_bands, build_exclusions}
use bandcamp_curate.Curation.Scoring.{Floats, ScoredItem}
use bandcamp_curate.Curation.Ranking.{Request, compute_recommendations}
use bandcamp_curate.Scans.Tables.{Store}
use bandcamp_curate.Curation.Ranking.Excluded.{
  build_exclusions-band, compute_recommendations-without,
}
use bandcamp_curate.Api.Ownership.Single.{scalar_one_or_none-any}
use bandcamp_curate.Api.Ownership.{scalar_one_or_none, pruned}
use bandcamp_curate.Api.Ownership.Pruning.{Pruned, pruned-Pruned}
use bandcamp_curate.Api.Likes.{
  commit_like, LikeIn, LikeOut, one_of, liked_row, release_at, is_like, add_like, band_ref,
  dismissed, write_like, like,
}

-- After a like was written, the user likes the item.
pub add_like-any :
    (user : ℕ) (p : LikeIn) (existing : Option Like) (lib : Library)
    → scalar_one_or_none (where_rows (is_like user p) lib.likes) ≡ ok existing
    → any (is_like user p) (add_like user p existing lib).likes ≡ true
unfolding add_like is_like
add_like-any user p none lib h =
    any_last (is_like user p) lib.likes _
      (ground (arith, opt_same_refl p.album_id, opt_same_refl p.track_id, ==_iff user user))
add_like-any user p (some l) lib h =
    scalar_one_or_none-any (is_like user p) (λ l. true) lib.likes h refl

-- The column of the first row that passes a test is in the column of the rows that pass a weaker one.
scalar_set-find {ℓ} :
    {A : Type ℓ} (column : A → Option ℕ) (first wide : A → Bool) (xs : List A) {x : A} (n : ℕ)
    → find first xs ≡ some x
    → column x ≡ some n
    → wide x ≡ true
    → contains n (scalar_set column (where_rows wide xs)) ≡ true
unfolding scalar_set
scalar_set-find column first wide [] n found col h = ground arith
scalar_set-find column first wide (y ∷ xs) {x} n found col h =
    let ih =
      λ (e : find first xs ≡ some x). scalar_set-find column first wide xs {x = x} n e col h in
    elim (Bool-cases (wide y)) [
      | inl w ↦ elim (Option-cases (column y)) [
        | inl c ↦ rw (w, c) (ground (arith, λ (e : find first xs ≡ some x). ih e, col, c))
        | inr (m, c) ↦
            rw (w, c) (ground (arith, λ (e : find first xs ≡ some x). ih e, col, c, ==_iff m n))
      ]
      | inr w ↦ rw w (ground (arith, λ (e : find first xs ≡ some x). ih e, h, w))
    ]

-- The band of a release is among the bands of the releases that a user likes.
liked_bands-contains :
    (item : Like → Option ℕ) (user : ℕ) (p : LikeIn) (id : Option ℕ) (likes : List Like)
    (releases : List Release) (r : Release) (band : ℕ)
    → ((l : Like) → is_like user p l ≡ true → opt_same (item l) id ≡ true)
    → any (is_like user p) likes ≡ true
    → release_at id releases ≡ some r
    → r.band_id ≡ some band
    → contains band (liked_bands item user likes releases) ≡ true
unfolding liked_bands release_at is_like
liked_bands-contains item user p id likes releases r band same liked found in_band =
    let at_id = find_sound (λ (s : Release). opt_is id s.id) releases found in
    scalar_set-find (λ (s : Release). s.band_id) (λ s. opt_is id s.id)
      (λ s. any (λ (l : Like). (l.user_id == user) && opt_is (item l) s.id) likes) releases band
      found in_band
      (any-weaken (is_like user p) (λ l. (l.user_id == user) && opt_is (item l) r.id) likes
        (λ l mine. ground (arith, same l mine, at_id, mine, ==_iff r.id r.id)) liked)

liked_row-band :
    (p : LikeIn) (lib : Library) (band : ℕ)
    → band_ref (liked_row p lib) ≡ some band
    → (r : Release) × (r.band_id ≡ some band)
      × ((release_at p.album_id lib.albums ≡ some r) ⊎ (release_at p.track_id lib.tracks ≡ some r))
unfolding liked_row
liked_row-band p lib band in_band = elim (Option-cases p.album_id) [
  | inl none_e ↦ elim (Option-cases (release_at p.track_id lib.tracks)) [
    | inl e ↦ ground (arith, none_e, e)
    | inr (r, e) ↦ (r, ground (arith, none_e, e), inr e)
  ]
  | inr (a, some_e) ↦ elim (Option-cases (release_at (some a) lib.albums)) [
    | inl e ↦ ground (arith, some_e, e)
    | inr (r, e) ↦ (r, ground (arith, some_e, e), inl (rw some_e e))
  ]
]

-- The band of an item that a user likes is among the user's excluded bands.
build_exclusions-liked :
    (now me user : ℕ) (p : LikeIn) (lib : Library) (band : ℕ)
    → any (is_like user p) lib.likes ≡ true
    → band_ref (liked_row p lib) ≡ some band
    → contains band (build_exclusions now me user lib).band_ids ≡ true
unfolding build_exclusions is_like
build_exclusions-liked now me user p lib band liked in_band =
    let (r, r_band, side) = liked_row-band p lib band in_band in
    build_exclusions-band now me user lib band (
      inr (elim side [
        | inl found ↦ inl (
            liked_bands-contains (λ l. l.album_id) user p p.album_id lib.likes lib.albums r band
              (λ l mine. ground arith) liked found r_band)
        | inr found ↦ inr (
            liked_bands-contains (λ l. l.track_id) user p p.track_id lib.likes lib.tracks r band
              (λ l mine. ground arith) liked found r_band)
      ]))

liked_row-add_like :
    (user : ℕ) (p : LikeIn) (existing : Option Like) (lib : Library)
    → liked_row p (add_like user p existing lib) ≡ liked_row p lib
unfolding liked_row add_like
liked_row-add_like user p none lib = refl
liked_row-add_like user p (some l) lib = refl

module _ {fl : Floats} where
  commit_like-answered :
      (user : ℕ) (p : LikeIn) (found : Result (Option Like)) (st : Store fl) (out : LikeOut)
      → (commit_like user p found st).0 ≡ ok out
      → (existing : Option Like) × (found ≡ ok existing)
        × ((commit_like user p found st).1 ≡ write_like user p existing st)
  unfolding commit_like
  commit_like-answered user p (raise e) st out h = ground (arith, h)
  commit_like-answered user p (ok existing) st out h = (existing, refl, refl)

  -- An answer comes with what the query of the existing like gave.
  pub like-answered :
      (user : ℕ) (p : LikeIn) (st : Store fl) (out : LikeOut)
      → (like user p st).0 ≡ ok out
      → (existing : Option Like) × (scalar_one_or_none
            (where_rows (is_like user p) st.library.likes)
          ≡ ok existing)
        × ((like user p st).1 ≡ write_like user p existing st)
  unfolding like
  like-answered user p st out h = elim (Bool-cases (one_of p)) [
    | inr e ↦ ground (arith, h, e)
    | inl e ↦ elim (Bool-cases (is_some (liked_row p st.library))) [
      | inr f ↦ ground (arith, h, e, f)
      | inl f ↦
          let answered : (commit_like user p
                (scalar_one_or_none (where_rows (is_like user p) st.library.likes)) st).0
              ≡ ok out =
            ground (arith, h, e, f) in
          rw (e, f)
            (commit_like-answered user p
              (scalar_one_or_none (where_rows (is_like user p) st.library.likes)) st out answered)
    ]
  ]

  -- When a like is answered: every scan of the user has lost the items of the liked item's band, or
  -- that item if it has no band, and has a new generation; a scan that is not the user's has its
  -- items and its generation as before.
  pub like-Pruned :
      (user : ℕ) (p : LikeIn) (i : ℕ) (st : Store fl) (out : LikeOut)
      → (like user p st).0 ≡ ok out
      → Pruned user (dismissed p st.library) i st (like user p st).1
  unfolding write_like Pruned
  like-Pruned user p i st out h =
      let (existing, queried, written) = like-answered user p st out h in
      rw written (
        pruned-Pruned user (dismissed p st.library) i
          (record st { library = add_like user p existing st.library }))

  -- When a like of an item of a band is answered, no item of that band is in any ranking that is
  -- computed for the user from the tables that it leaves, at any time and with any request.
  pub like-lasting :
      (user : ℕ) (p : LikeIn) (band : ℕ) (q : Request) (st : Store fl) (out : LikeOut)
      → (like user p st).0 ≡ ok out
      → band_ref (liked_row p st.library) ≡ some band
      → q.user ≡ user
      → All
          (λ (s : ScoredItem fl). opt_is s.band_id band ≡ false)
          (compute_recommendations fl q (like user p st).1.library).0
  unfolding write_like pruned
  like-lasting user p band q st out h in_band own =
      let (existing, queried, written) = like-answered user p st out h in
      rw (written) (
        compute_recommendations-without fl q _ band (
          build_exclusions-liked q.now q.me q.user p _ band
            (rw own (add_like-any user p existing st.library queried))
            (rw (liked_row-add_like user p existing st.library) in_band)))
