-- ===== src/Curation/ColdStart/Agrees.antt =====
-- The diagnostics and the ranking exclude the same (backend/app/curation/engine.py).
use bandcamp_curate.Base.{
  any, opt_is, ℕ, Bool, ◌&&◌, ◌||◌, not, Option, none, some, List, [], ◌∷◌, ◌++◌, ◌≡◌, refl, ◌==◌,
  Text, any-append, contains, where_rows, arith, Bool-cases, Option-cases, inl, inr,
}
use bandcamp_curate.Curation.Tables.{FanItem, Blocked, Follow, Library, scalar_set, opt_in}
use bandcamp_curate.Curation.Exclusions.{
  liked_bands, my_items, my_blocks, my_likes, excluded, build_exclusions,
}
use bandcamp_curate.Curation.ColdStart.{
  Columns, Reasons, album_columns, track_columns, my_listed, is_followed, reasons_of,
}

contains-append :
    (n : ℕ) (xs ys : List ℕ) → contains n (xs ++ ys) ≡ (contains n xs || contains n ys)
contains-append n = any-append (λ m. m == n)

opt_in-append : (o : Option ℕ) (xs ys : List ℕ) → opt_in o (xs ++ ys) ≡ (opt_in o xs || opt_in o ys)
opt_in-append none xs ys = refl
opt_in-append (some n) xs ys = contains-append n xs ys

scalar_set-any {ℓ} :
    {A : Type ℓ} (n : ℕ) (column : A → Option ℕ) (test : A → Bool) (xs : List A)
    → contains n (scalar_set column (where_rows test xs))
      ≡ any (λ x. test x && opt_is (column x) n) xs
unfolding scalar_set
scalar_set-any n column test [] = refl
scalar_set-any n column test (x ∷ xs) =
    let ih = scalar_set-any n column test xs in
    elim (Bool-cases (test x)) [
      | inr e ↦ rw e ih
      | inl e ↦ elim (Option-cases (column x)) [
        | inl c ↦ rw (e, c) ih
        | inr (m, c) ↦ rw (e, c) (ground (arith, ih))
      ]
    ]

any-either {ℓ} :
    {A : Type ℓ} (f g h : A → Bool) (xs : List A)
    → ((x : A) → f x ≡ (g x || h x))
    → any f xs ≡ (any g xs || any h xs)
any-either f g h [] same = refl
any-either f g h (x ∷ xs) same = ground (arith, same x, any-either f g h xs same)

-- What is in the collection is owned or wished for.
my_items-listed :
    (item me : ℕ) (column : FanItem → Option ℕ) (items : List FanItem)
    → contains item (scalar_set column (where_rows (λ i. i.fan_id == me) items)) ≡ (
        contains item
          (scalar_set column (where_rows (λ i. (i.fan_id == me) && not i.is_wishlist) items))
        || contains item
            (scalar_set column (where_rows (λ i. (i.fan_id == me) && i.is_wishlist) items)))
unfolding scalar_set
my_items-listed item me column items =
    let mine = λ (i : FanItem). i.fan_id == me in
    let owned = λ (i : FanItem). (i.fan_id == me) && not i.is_wishlist in
    let wished = λ (i : FanItem). (i.fan_id == me) && i.is_wishlist in
    let is_it = λ (i : FanItem). opt_is (column i) item in
    ground (
      arith,
      scalar_set-any item column mine items,
      scalar_set-any item column owned items,
      scalar_set-any item column wished items,
      any-either (λ i. mine i && is_it i) (λ i. owned i && is_it i) (λ i. wished i && is_it i) items
          (λ i. ground arith),
    )

abbrev pub any_reason : Reasons → Bool
any_reason r = r.owned || (r.wishlisted || (r.followed || (r.blacklisted || r.liked)))

-- The ids that are excluded for a kind of release.
abbrev excluded_ids : ℕ → ℕ → ℕ → Library → Columns → List ℕ
excluded_ids now me user lib col =
    scalar_set col.of_item (my_items me lib)
    ++ (scalar_set col.of_block (my_blocks now user lib)
        ++ scalar_set col.of_like (my_likes user lib))

excluded-reasons :
    (now me user : ℕ) (lib : Library) (col : Columns) (item : ℕ) (band_id : Option ℕ)
    (url : Option Text)
    → excluded
        (excluded_ids now me user lib col)
        (build_exclusions now me user lib)
        item
        band_id
        url
      ≡ any_reason (reasons_of now me user lib col item band_id url)
unfolding excluded build_exclusions reasons_of my_listed is_followed my_items
excluded-reasons now me user lib col item band_id url =
    let blocked = scalar_set col.of_block (my_blocks now user lib) in
    let liked = scalar_set col.of_like (my_likes user lib) in
    let follows =
      scalar_set (λ (f : Follow). some f.band_id) (where_rows (λ f. f.fan_id == me) lib.follows) in
    let blocked_bands = scalar_set (λ (b : Blocked). b.band_id) (my_blocks now user lib) in
    let liked_of =
      liked_bands (λ l. l.album_id) user lib.likes lib.albums
      ++ liked_bands (λ l. l.track_id) user lib.likes lib.tracks in
    ground (
      arith,
      contains-append item (scalar_set col.of_item (my_items me lib)) (blocked ++ liked),
      contains-append item blocked liked,
      my_items-listed item me col.of_item lib.fan_items,
      opt_in-append band_id follows (blocked_bands ++ liked_of),
      opt_in-append band_id blocked_bands liked_of,
    )

-- Each album and each track is left out of a user's ranking just if the diagnostics give at least
-- one reason for it: owned, wished for, followed, blocked or liked. So a candidate without a reason
-- is one that may be recommended.
pub reasons_complete :
    (now me user : ℕ) (lib : Library) (item : ℕ) (band_id : Option ℕ) (url : Option Text)
    → (excluded
          (build_exclusions now me user lib).album_ids
          (build_exclusions now me user lib)
          item
          band_id
          url
        ≡ any_reason (reasons_of now me user lib album_columns item band_id url))
      × (excluded
            (build_exclusions now me user lib).track_ids
            (build_exclusions now me user lib)
            item
            band_id
            url
          ≡ any_reason (reasons_of now me user lib track_columns item band_id url))
unfolding build_exclusions scalar_set
reasons_complete now me user lib item band_id url = (
  excluded-reasons now me user lib album_columns item band_id url,
  excluded-reasons now me user lib track_columns item band_id url,
)
